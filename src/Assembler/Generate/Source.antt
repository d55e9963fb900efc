-- ===== src/Assembler/Generate/Source.antt =====
-- The lines that the assembler reads (src/front/asm/generate.cpp), for instructions with their operands.
use viuavm.Common.{◌<◌, List, [], ◌∷◌, Text}
use viuavm.Text.Words.{IsWord}
use viuavm.Bytecode.Encode.{Word, IntOp}
use viuavm.Bytecode.Instruction.{JumpType, Instruction}
use viuavm.Bytecode.Program.Lines.{IsLiteral}
use viuavm.Bytecode.Program.Counted.{line_of}
use viuavm.Assembler.Operands.Decimal.{decimal, written}

-- The operands of the instructions without names. `IsAssembled` leaves those out that have no text here.
abbrev pub target_text : Word → JumpType → Text
target_text addr JumpType.absolute = 46 ∷ decimal addr
target_text addr kind = decimal addr

abbrev pub operands : Instruction → List Text
operands (Instruction.izero a) = written a ∷ []
operands (Instruction.iinc a) = written a ∷ []
operands (Instruction.idec a) = written a ∷ []
operands (Instruction.vec a) = written a ∷ []
operands (Instruction.lognot a) = written a ∷ []
operands (Instruction.free a) = written a ∷ []
operands (Instruction.empty a) = written a ∷ []
operands (Instruction.tmpri a) = written a ∷ []
operands (Instruction.tmpro a) = written a ∷ []
operands (Instruction.print a) = written a ∷ []
operands (Instruction.echo a) = written a ∷ []
operands (Instruction.clbind a) = written a ∷ []
operands (Instruction.argc a) = written a ∷ []
operands (Instruction.pull a) = written a ∷ []
operands (Instruction.vmthrow a) = written a ∷ []
operands (Instruction.vmregister a) = written a ∷ []
operands (Instruction.istore a b) = written a ∷ written b ∷ []
operands (Instruction.vpush a b) = written a ∷ written b ∷ []
operands (Instruction.vlen a b) = written a ∷ written b ∷ []
operands (Instruction.move a b) = written a ∷ written b ∷ []
operands (Instruction.copy a b) = written a ∷ written b ∷ []
operands (Instruction.ref a b) = written a ∷ written b ∷ []
operands (Instruction.swap a b) = written a ∷ written b ∷ []
operands (Instruction.isnull a b) = written a ∷ written b ∷ []
operands (Instruction.fcall a b) = written a ∷ written b ∷ []
operands (Instruction.param a b) = written a ∷ written b ∷ []
operands (Instruction.paref a b) = written a ∷ written b ∷ []
operands (Instruction.arg a b) = written a ∷ written b ∷ []
operands (Instruction.itof a b) = written a ∷ written b ∷ []
operands (Instruction.ftoi a b) = written a ∷ written b ∷ []
operands (Instruction.stoi a b) = written a ∷ written b ∷ []
operands (Instruction.stof a b) = written a ∷ written b ∷ []
operands (Instruction.frame a b) = written a ∷ written b ∷ []
operands (Instruction.iadd a b c) = written a ∷ written b ∷ written c ∷ []
operands (Instruction.isub a b c) = written a ∷ written b ∷ written c ∷ []
operands (Instruction.imul a b c) = written a ∷ written b ∷ written c ∷ []
operands (Instruction.idiv a b c) = written a ∷ written b ∷ written c ∷ []
operands (Instruction.ilt a b c) = written a ∷ written b ∷ written c ∷ []
operands (Instruction.ilte a b c) = written a ∷ written b ∷ written c ∷ []
operands (Instruction.igt a b c) = written a ∷ written b ∷ written c ∷ []
operands (Instruction.igte a b c) = written a ∷ written b ∷ written c ∷ []
operands (Instruction.ieq a b c) = written a ∷ written b ∷ written c ∷ []
operands (Instruction.fadd a b c) = written a ∷ written b ∷ written c ∷ []
operands (Instruction.fsub a b c) = written a ∷ written b ∷ written c ∷ []
operands (Instruction.fmul a b c) = written a ∷ written b ∷ written c ∷ []
operands (Instruction.fdiv a b c) = written a ∷ written b ∷ written c ∷ []
operands (Instruction.flt a b c) = written a ∷ written b ∷ written c ∷ []
operands (Instruction.flte a b c) = written a ∷ written b ∷ written c ∷ []
operands (Instruction.fgt a b c) = written a ∷ written b ∷ written c ∷ []
operands (Instruction.fgte a b c) = written a ∷ written b ∷ written c ∷ []
operands (Instruction.feq a b c) = written a ∷ written b ∷ written c ∷ []
operands (Instruction.logand a b c) = written a ∷ written b ∷ written c ∷ []
operands (Instruction.logor a b c) = written a ∷ written b ∷ written c ∷ []
operands (Instruction.vinsert a b c) = written a ∷ written b ∷ written c ∷ []
operands (Instruction.vpop a b c) = written a ∷ written b ∷ written c ∷ []
operands (Instruction.vat a b c) = written a ∷ written b ∷ written c ∷ []
operands (Instruction.bstore a b) = written a ∷ written b ∷ []
operands (Instruction.ress a) = a ∷ []
operands (Instruction.jump addr kind) = target_text addr kind ∷ []
operands (Instruction.branch a addr_truth kind_truth addr_false kind_false) =
    written a ∷ target_text addr_truth kind_truth ∷ target_text addr_false kind_false ∷ []
operands i = []

abbrev pub IsInt : IntOp → Type 0
IsInt a = a.1 < 4294967296

abbrev pub IsTarget : Word → JumpType → Type 0
IsTarget addr JumpType.to_byte = ⊥
IsTarget addr kind = addr < 2147483648

-- Registers are 32-bit patterns, jumps are to the index of an instruction, and there is no `fstore`, whose
-- operand has no text in this model.
abbrev pub IsAssembled : Instruction → Type 0
IsAssembled (Instruction.izero a) = IsInt a
IsAssembled (Instruction.iinc a) = IsInt a
IsAssembled (Instruction.idec a) = IsInt a
IsAssembled (Instruction.vec a) = IsInt a
IsAssembled (Instruction.lognot a) = IsInt a
IsAssembled (Instruction.free a) = IsInt a
IsAssembled (Instruction.empty a) = IsInt a
IsAssembled (Instruction.tmpri a) = IsInt a
IsAssembled (Instruction.tmpro a) = IsInt a
IsAssembled (Instruction.print a) = IsInt a
IsAssembled (Instruction.echo a) = IsInt a
IsAssembled (Instruction.clbind a) = IsInt a
IsAssembled (Instruction.argc a) = IsInt a
IsAssembled (Instruction.pull a) = IsInt a
IsAssembled (Instruction.vmthrow a) = IsInt a
IsAssembled (Instruction.vmregister a) = IsInt a
IsAssembled (Instruction.istore a b) = IsInt a × IsInt b
IsAssembled (Instruction.vpush a b) = IsInt a × IsInt b
IsAssembled (Instruction.vlen a b) = IsInt a × IsInt b
IsAssembled (Instruction.move a b) = IsInt a × IsInt b
IsAssembled (Instruction.copy a b) = IsInt a × IsInt b
IsAssembled (Instruction.ref a b) = IsInt a × IsInt b
IsAssembled (Instruction.swap a b) = IsInt a × IsInt b
IsAssembled (Instruction.isnull a b) = IsInt a × IsInt b
IsAssembled (Instruction.fcall a b) = IsInt a × IsInt b
IsAssembled (Instruction.param a b) = IsInt a × IsInt b
IsAssembled (Instruction.paref a b) = IsInt a × IsInt b
IsAssembled (Instruction.arg a b) = IsInt a × IsInt b
IsAssembled (Instruction.itof a b) = IsInt a × IsInt b
IsAssembled (Instruction.ftoi a b) = IsInt a × IsInt b
IsAssembled (Instruction.stoi a b) = IsInt a × IsInt b
IsAssembled (Instruction.stof a b) = IsInt a × IsInt b
IsAssembled (Instruction.frame a b) = IsInt a × IsInt b
IsAssembled (Instruction.iadd a b c) = IsInt a × IsInt b × IsInt c
IsAssembled (Instruction.isub a b c) = IsInt a × IsInt b × IsInt c
IsAssembled (Instruction.imul a b c) = IsInt a × IsInt b × IsInt c
IsAssembled (Instruction.idiv a b c) = IsInt a × IsInt b × IsInt c
IsAssembled (Instruction.ilt a b c) = IsInt a × IsInt b × IsInt c
IsAssembled (Instruction.ilte a b c) = IsInt a × IsInt b × IsInt c
IsAssembled (Instruction.igt a b c) = IsInt a × IsInt b × IsInt c
IsAssembled (Instruction.igte a b c) = IsInt a × IsInt b × IsInt c
IsAssembled (Instruction.ieq a b c) = IsInt a × IsInt b × IsInt c
IsAssembled (Instruction.fadd a b c) = IsInt a × IsInt b × IsInt c
IsAssembled (Instruction.fsub a b c) = IsInt a × IsInt b × IsInt c
IsAssembled (Instruction.fmul a b c) = IsInt a × IsInt b × IsInt c
IsAssembled (Instruction.fdiv a b c) = IsInt a × IsInt b × IsInt c
IsAssembled (Instruction.flt a b c) = IsInt a × IsInt b × IsInt c
IsAssembled (Instruction.flte a b c) = IsInt a × IsInt b × IsInt c
IsAssembled (Instruction.fgt a b c) = IsInt a × IsInt b × IsInt c
IsAssembled (Instruction.fgte a b c) = IsInt a × IsInt b × IsInt c
IsAssembled (Instruction.feq a b c) = IsInt a × IsInt b × IsInt c
IsAssembled (Instruction.logand a b c) = IsInt a × IsInt b × IsInt c
IsAssembled (Instruction.logor a b c) = IsInt a × IsInt b × IsInt c
IsAssembled (Instruction.vinsert a b c) = IsInt a × IsInt b × IsInt c
IsAssembled (Instruction.vpop a b c) = IsInt a × IsInt b × IsInt c
IsAssembled (Instruction.vat a b c) = IsInt a × IsInt b × IsInt c
IsAssembled (Instruction.closure a name) = IsInt a × IsWord name
IsAssembled (Instruction.function a name) = IsInt a × IsWord name
IsAssembled (Instruction.vmclass a name) = IsInt a × IsWord name
IsAssembled (Instruction.vmderive a name) = IsInt a × IsWord name
IsAssembled (Instruction.vmnew a name) = IsInt a × IsWord name
IsAssembled (Instruction.vmmsg a name) = IsInt a × IsWord name
IsAssembled (Instruction.call a name) = IsInt a × IsWord name
IsAssembled (Instruction.vmattach a f m) = IsInt a × IsWord f × IsWord m
IsAssembled (Instruction.strstore a s) = IsInt a × IsLiteral s
IsAssembled (Instruction.import s) = IsLiteral s
IsAssembled (Instruction.vmcatch t b) = IsLiteral t × IsWord b
IsAssembled (Instruction.vmenter b) = IsWord b
IsAssembled (Instruction.link m) = IsWord m
IsAssembled (Instruction.ress a) = IsWord a
IsAssembled (Instruction.bstore a b) = IsInt a × (b.1 < 256)
IsAssembled (Instruction.jump addr kind) = IsTarget addr kind
IsAssembled (Instruction.branch a addr_truth kind_truth addr_false kind_false) =
    IsInt a × IsTarget addr_truth kind_truth × IsTarget addr_false kind_false
IsAssembled (Instruction.fstore a f) = ⊥
IsAssembled i = Unit

abbrev pub source_line : Instruction → Text
source_line = line_of written operands
