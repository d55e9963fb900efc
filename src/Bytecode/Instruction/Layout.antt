-- ===== src/Bytecode/Instruction/Layout.antt =====
-- The bytes of each instruction, the size that the tables give it, and that the encoders agree with both.
use viuavm.Common.{
  ℕ, if◌then◌else◌, ◌+◌, ◌<◌, ◌≡◌, Option, none, some, List, [], ◌∷◌, ◌++◌, length, Text, codes,
  ◌=ᵗ◌, All, ◌≢◌,
}
use viuavm.Bytecode.Opcode.{Opcode, to_byte}
use viuavm.Bytecode.Tables.{op_size}
use viuavm.Bytecode.Cursor.{int_bytes, bool_byte}
use viuavm.Bytecode.Encode.{operand_bytes, c_string_bytes, unquoted}
use viuavm.Bytecode.Instruction.{Instruction}

-- The number that `ress` writes for the name of a register set.
unfoldable pub ress_id : Text → Option ℕ
ress_id a =
    if a =ᵗ codes "global"
    then some 0
    else if a =ᵗ codes "local"
    then some 1
    else if a =ᵗ codes "static"
    then some 2
    else if a =ᵗ codes "temp"
    then some 3
    else none

abbrev pub ress_bytes : Option ℕ → List ℕ
ress_bytes (some n) = int_bytes n
ress_bytes none = []

-- The opcode of an instruction.
unfoldable pub opcode : Instruction → Opcode
opcode Instruction.nop = Opcode.nop
opcode (Instruction.izero regno) = Opcode.izero
opcode (Instruction.istore regno i) = Opcode.istore
opcode (Instruction.iadd rega regb regr) = Opcode.iadd
opcode (Instruction.isub rega regb regr) = Opcode.isub
opcode (Instruction.imul rega regb regr) = Opcode.imul
opcode (Instruction.idiv rega regb regr) = Opcode.idiv
opcode (Instruction.iinc regno) = Opcode.iinc
opcode (Instruction.idec regno) = Opcode.idec
opcode (Instruction.ilt rega regb regr) = Opcode.ilt
opcode (Instruction.ilte rega regb regr) = Opcode.ilte
opcode (Instruction.igt rega regb regr) = Opcode.igt
opcode (Instruction.igte rega regb regr) = Opcode.igte
opcode (Instruction.ieq rega regb regr) = Opcode.ieq
opcode (Instruction.fstore regno f) = Opcode.fstore
opcode (Instruction.fadd rega regb regr) = Opcode.fadd
opcode (Instruction.fsub rega regb regr) = Opcode.fsub
opcode (Instruction.fmul rega regb regr) = Opcode.fmul
opcode (Instruction.fdiv rega regb regr) = Opcode.fdiv
opcode (Instruction.flt rega regb regr) = Opcode.flt
opcode (Instruction.flte rega regb regr) = Opcode.flte
opcode (Instruction.fgt rega regb regr) = Opcode.fgt
opcode (Instruction.fgte rega regb regr) = Opcode.fgte
opcode (Instruction.feq rega regb regr) = Opcode.feq
opcode (Instruction.bstore regno b) = Opcode.bstore
opcode (Instruction.itof a b) = Opcode.itof
opcode (Instruction.ftoi a b) = Opcode.ftoi
opcode (Instruction.stoi a b) = Opcode.stoi
opcode (Instruction.stof a b) = Opcode.stof
opcode (Instruction.strstore reg s) = Opcode.strstore
opcode (Instruction.vec index) = Opcode.vec
opcode (Instruction.vinsert vector src dst) = Opcode.vinsert
opcode (Instruction.vpush vector src) = Opcode.vpush
opcode (Instruction.vpop vector dst pos) = Opcode.vpop
opcode (Instruction.vat vector dst at) = Opcode.vat
opcode (Instruction.vlen vector reg) = Opcode.vlen
opcode (Instruction.lognot reg) = Opcode.not
opcode (Instruction.logand regr rega regb) = Opcode.and
opcode (Instruction.logor regr rega regb) = Opcode.or
opcode (Instruction.move a b) = Opcode.move
opcode (Instruction.copy a b) = Opcode.copy
opcode (Instruction.ref a b) = Opcode.ref
opcode (Instruction.swap a b) = Opcode.swap
opcode (Instruction.free reg) = Opcode.free
opcode (Instruction.empty reg) = Opcode.empty
opcode (Instruction.isnull a b) = Opcode.isnull
opcode (Instruction.ress a) = Opcode.ress
opcode (Instruction.tmpri reg) = Opcode.tmpri
opcode (Instruction.tmpro reg) = Opcode.tmpro
opcode (Instruction.print reg) = Opcode.print
opcode (Instruction.echo reg) = Opcode.echo
opcode (Instruction.clbind reg) = Opcode.clbind
opcode (Instruction.closure reg fn) = Opcode.closure
opcode (Instruction.function reg fn) = Opcode.function
opcode (Instruction.fcall clsr ret) = Opcode.fcall
opcode (Instruction.frame a b) = Opcode.frame
opcode (Instruction.param a b) = Opcode.param
opcode (Instruction.paref a b) = Opcode.paref
opcode (Instruction.arg a b) = Opcode.arg
opcode (Instruction.argc a) = Opcode.argc
opcode (Instruction.call reg fn_name) = Opcode.call
opcode (Instruction.jump addr kind) = Opcode.jump
opcode (Instruction.branch regc addr_truth kind_truth addr_false kind_false) = Opcode.branch
opcode Instruction.vmtry = Opcode.try
opcode (Instruction.vmcatch type_name block_name) = Opcode.catch
opcode (Instruction.pull regno) = Opcode.pull
opcode (Instruction.vmenter block_name) = Opcode.enter
opcode (Instruction.vmthrow regno) = Opcode.throw
opcode Instruction.leave = Opcode.leave
opcode (Instruction.import module_name) = Opcode.import
opcode (Instruction.link module_name) = Opcode.link
opcode (Instruction.vmclass reg class_name) = Opcode.class
opcode (Instruction.vmderive reg base_class_name) = Opcode.derive
opcode (Instruction.vmattach reg function_name method_name) = Opcode.attach
opcode (Instruction.vmregister regno) = Opcode.register
opcode (Instruction.vmnew reg class_name) = Opcode.new
opcode (Instruction.vmmsg reg method_name) = Opcode.msg
opcode Instruction.end = Opcode.end
opcode Instruction.halt = Opcode.halt

-- Its operands, as they stand in the bytecode.
unfoldable pub operands : Instruction → List ℕ
operands Instruction.nop = []
operands (Instruction.izero regno) = operand_bytes regno
operands (Instruction.istore regno i) = operand_bytes regno ++ operand_bytes i
operands (Instruction.iadd rega regb regr) =
    operand_bytes rega ++ (operand_bytes regb ++ operand_bytes regr)
operands (Instruction.isub rega regb regr) =
    operand_bytes rega ++ (operand_bytes regb ++ operand_bytes regr)
operands (Instruction.imul rega regb regr) =
    operand_bytes rega ++ (operand_bytes regb ++ operand_bytes regr)
operands (Instruction.idiv rega regb regr) =
    operand_bytes rega ++ (operand_bytes regb ++ operand_bytes regr)
operands (Instruction.iinc regno) = operand_bytes regno
operands (Instruction.idec regno) = operand_bytes regno
operands (Instruction.ilt rega regb regr) =
    operand_bytes rega ++ (operand_bytes regb ++ operand_bytes regr)
operands (Instruction.ilte rega regb regr) =
    operand_bytes rega ++ (operand_bytes regb ++ operand_bytes regr)
operands (Instruction.igt rega regb regr) =
    operand_bytes rega ++ (operand_bytes regb ++ operand_bytes regr)
operands (Instruction.igte rega regb regr) =
    operand_bytes rega ++ (operand_bytes regb ++ operand_bytes regr)
operands (Instruction.ieq rega regb regr) =
    operand_bytes rega ++ (operand_bytes regb ++ operand_bytes regr)
operands (Instruction.fstore regno f) = operand_bytes regno ++ int_bytes f
operands (Instruction.fadd rega regb regr) =
    operand_bytes rega ++ (operand_bytes regb ++ operand_bytes regr)
operands (Instruction.fsub rega regb regr) =
    operand_bytes rega ++ (operand_bytes regb ++ operand_bytes regr)
operands (Instruction.fmul rega regb regr) =
    operand_bytes rega ++ (operand_bytes regb ++ operand_bytes regr)
operands (Instruction.fdiv rega regb regr) =
    operand_bytes rega ++ (operand_bytes regb ++ operand_bytes regr)
operands (Instruction.flt rega regb regr) =
    operand_bytes rega ++ (operand_bytes regb ++ operand_bytes regr)
operands (Instruction.flte rega regb regr) =
    operand_bytes rega ++ (operand_bytes regb ++ operand_bytes regr)
operands (Instruction.fgt rega regb regr) =
    operand_bytes rega ++ (operand_bytes regb ++ operand_bytes regr)
operands (Instruction.fgte rega regb regr) =
    operand_bytes rega ++ (operand_bytes regb ++ operand_bytes regr)
operands (Instruction.feq rega regb regr) =
    operand_bytes rega ++ (operand_bytes regb ++ operand_bytes regr)
operands (Instruction.bstore regno b) = operand_bytes regno ++ (bool_byte b.0 ∷ b.1 ∷ [])
operands (Instruction.itof a b) = operand_bytes a ++ operand_bytes b
operands (Instruction.ftoi a b) = operand_bytes a ++ operand_bytes b
operands (Instruction.stoi a b) = operand_bytes a ++ operand_bytes b
operands (Instruction.stof a b) = operand_bytes a ++ operand_bytes b
operands (Instruction.strstore reg s) = operand_bytes reg ++ c_string_bytes (unquoted s)
operands (Instruction.vec index) = operand_bytes index
operands (Instruction.vinsert vector src dst) =
    operand_bytes vector ++ (operand_bytes src ++ operand_bytes dst)
operands (Instruction.vpush vector src) = operand_bytes vector ++ operand_bytes src
operands (Instruction.vpop vector dst pos) =
    operand_bytes vector ++ (operand_bytes dst ++ operand_bytes pos)
operands (Instruction.vat vector dst at) =
    operand_bytes vector ++ (operand_bytes dst ++ operand_bytes at)
operands (Instruction.vlen vector reg) = operand_bytes vector ++ operand_bytes reg
operands (Instruction.lognot reg) = operand_bytes reg
operands (Instruction.logand regr rega regb) =
    operand_bytes regr ++ (operand_bytes rega ++ operand_bytes regb)
operands (Instruction.logor regr rega regb) =
    operand_bytes regr ++ (operand_bytes rega ++ operand_bytes regb)
operands (Instruction.move a b) = operand_bytes a ++ operand_bytes b
operands (Instruction.copy a b) = operand_bytes a ++ operand_bytes b
operands (Instruction.ref a b) = operand_bytes a ++ operand_bytes b
operands (Instruction.swap a b) = operand_bytes a ++ operand_bytes b
operands (Instruction.free reg) = operand_bytes reg
operands (Instruction.empty reg) = operand_bytes reg
operands (Instruction.isnull a b) = operand_bytes a ++ operand_bytes b
operands (Instruction.ress a) = ress_bytes (ress_id a)
operands (Instruction.tmpri reg) = operand_bytes reg
operands (Instruction.tmpro reg) = operand_bytes reg
operands (Instruction.print reg) = operand_bytes reg
operands (Instruction.echo reg) = operand_bytes reg
operands (Instruction.clbind reg) = operand_bytes reg
operands (Instruction.closure reg fn) = operand_bytes reg ++ c_string_bytes fn
operands (Instruction.function reg fn) = operand_bytes reg ++ c_string_bytes fn
operands (Instruction.fcall clsr ret) = operand_bytes clsr ++ operand_bytes ret
operands (Instruction.frame a b) = operand_bytes a ++ operand_bytes b
operands (Instruction.param a b) = operand_bytes a ++ operand_bytes b
operands (Instruction.paref a b) = operand_bytes a ++ operand_bytes b
operands (Instruction.arg a b) = operand_bytes a ++ operand_bytes b
operands (Instruction.argc a) = operand_bytes a
operands (Instruction.call reg fn_name) = operand_bytes reg ++ c_string_bytes fn_name
operands (Instruction.jump addr kind) = int_bytes addr
operands (Instruction.branch regc addr_truth kind_truth addr_false kind_false) =
    operand_bytes regc ++ (int_bytes addr_truth ++ int_bytes addr_false)
operands Instruction.vmtry = []
operands (Instruction.vmcatch type_name block_name) =
    c_string_bytes (unquoted type_name) ++ c_string_bytes block_name
operands (Instruction.pull regno) = operand_bytes regno
operands (Instruction.vmenter block_name) = c_string_bytes block_name
operands (Instruction.vmthrow regno) = operand_bytes regno
operands Instruction.leave = []
operands (Instruction.import module_name) = c_string_bytes (unquoted module_name)
operands (Instruction.link module_name) = c_string_bytes module_name
operands (Instruction.vmclass reg class_name) = operand_bytes reg ++ c_string_bytes class_name
operands (Instruction.vmderive reg base_class_name) =
    operand_bytes reg ++ c_string_bytes base_class_name
operands (Instruction.vmattach reg function_name method_name) =
    operand_bytes reg ++ (c_string_bytes function_name ++ c_string_bytes method_name)
operands (Instruction.vmregister regno) = operand_bytes regno
operands (Instruction.vmnew reg class_name) = operand_bytes reg ++ c_string_bytes class_name
operands (Instruction.vmmsg reg method_name) = operand_bytes reg ++ c_string_bytes method_name
operands Instruction.end = []
operands Instruction.halt = []

abbrev pub layout : Instruction → List ℕ
layout i = to_byte (opcode i) ∷ operands i

-- The names that stand in its operands, as they are written: without quotes.
unfoldable pub names : Instruction → List Text
names (Instruction.strstore reg s) = unquoted s ∷ []
names (Instruction.closure reg fn) = fn ∷ []
names (Instruction.function reg fn) = fn ∷ []
names (Instruction.call reg fn_name) = fn_name ∷ []
names (Instruction.vmcatch type_name block_name) = unquoted type_name ∷ block_name ∷ []
names (Instruction.vmenter block_name) = block_name ∷ []
names (Instruction.import module_name) = unquoted module_name ∷ []
names (Instruction.link module_name) = module_name ∷ []
names (Instruction.vmclass reg class_name) = class_name ∷ []
names (Instruction.vmderive reg base_class_name) = base_class_name ∷ []
names (Instruction.vmattach reg function_name method_name) = function_name ∷ method_name ∷ []
names (Instruction.vmnew reg class_name) = class_name ∷ []
names (Instruction.vmmsg reg method_name) = method_name ∷ []
names _ = []

-- The bytes of the names, with their terminators.
abbrev pub total : List Text → ℕ
total [] = 0
total (s ∷ ss) = (length s + 1) + total ss

unfoldable pub name_bytes : Instruction → ℕ
name_bytes i = total (names i)

abbrev pub size_in_bytes : Instruction → ℕ
size_in_bytes i = op_size (opcode i) + name_bytes i

-- What the assembler guarantees of the texts: a quoted one is not empty, a register set is known.
abbrev pub IsWritable : Instruction → Type 0
IsWritable (Instruction.strstore reg s) = 0 < length s
IsWritable (Instruction.import module_name) = 0 < length module_name
IsWritable (Instruction.vmcatch type_name block_name) = 0 < length type_name
IsWritable (Instruction.ress a) = (n : ℕ) × (ress_id a ≡ some n)
IsWritable _ = Unit

-- Nor is there a NUL in a name.
abbrev pub IsNulFree : Text → Type 0
IsNulFree = All (λ c. c ≢ 0)

abbrev pub IsEncodable : Instruction → Type 0
IsEncodable i = IsWritable i × All IsNulFree (names i)
