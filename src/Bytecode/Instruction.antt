-- ===== src/Bytecode/Instruction.antt =====
-- An assembled instruction: one constructor for each encoder of include/viua/cg/bytecode/instructions.h,
-- with the arguments of the method of `Program` that calls it.
pub mod Layout
pub mod Emit
use viuavm.Common.{ℕ, ◌≡◌, Option, Text}
use viuavm.Bytecode.Cursor.{Cursor}
use viuavm.Bytecode.Encode.{Word, Float, IntOp, ByteOp}
use viuavm.Bytecode.Encode
use viuavm.Bytecode.Encode.Numbers
use viuavm.Bytecode.Encode.Registers
use viuavm.Bytecode.Encode.Control

-- `enum JUMPTYPE` of include/viua/program.h.
pub data JumpType : Type 0 where
  relative absolute to_byte : JumpType

pub data Instruction : Type 0 where
  nop : Instruction
  izero : IntOp → Instruction
  istore : IntOp → IntOp → Instruction
  iadd isub imul idiv : IntOp → IntOp → IntOp → Instruction
  iinc idec : IntOp → Instruction
  ilt ilte igt igte ieq : IntOp → IntOp → IntOp → Instruction
  fstore : IntOp → Float → Instruction
  fadd fsub fmul fdiv flt flte fgt fgte feq : IntOp → IntOp → IntOp → Instruction
  bstore : IntOp → ByteOp → Instruction
  itof ftoi stoi stof : IntOp → IntOp → Instruction
  strstore : IntOp → Text → Instruction
  vec : IntOp → Instruction
  vinsert : IntOp → IntOp → IntOp → Instruction
  vpush : IntOp → IntOp → Instruction
  vpop vat : IntOp → IntOp → IntOp → Instruction
  vlen : IntOp → IntOp → Instruction
  lognot : IntOp → Instruction
  logand logor : IntOp → IntOp → IntOp → Instruction
  move copy ref swap : IntOp → IntOp → Instruction
  free empty : IntOp → Instruction
  isnull : IntOp → IntOp → Instruction
  ress : Text → Instruction
  tmpri tmpro print echo clbind : IntOp → Instruction
  closure function : IntOp → Text → Instruction
  fcall frame param paref arg : IntOp → IntOp → Instruction
  argc : IntOp → Instruction
  call : IntOp → Text → Instruction
  jump : Word → JumpType → Instruction
  branch : IntOp → Word → JumpType → Word → JumpType → Instruction
  vmtry : Instruction
  vmcatch : Text → Text → Instruction
  pull : IntOp → Instruction
  vmenter : Text → Instruction
  vmthrow : IntOp → Instruction
  leave : Instruction
  import link : Text → Instruction
  vmclass vmderive : IntOp → Text → Instruction
  vmattach : IntOp → Text → Text → Instruction
  vmregister : IntOp → Instruction
  vmnew vmmsg : IntOp → Text → Instruction
  end halt : Instruction

-- The call of the encoder, `cg::bytecode::…(addr_ptr, …)`.
unfoldable pub emit : Cursor → Instruction → Option Cursor
emit addr_ptr Instruction.nop = Numbers.nop addr_ptr
emit addr_ptr (Instruction.izero regno) = Numbers.izero addr_ptr regno
emit addr_ptr (Instruction.istore regno i) = Numbers.istore addr_ptr regno i
emit addr_ptr (Instruction.iadd rega regb regr) = Numbers.iadd addr_ptr rega regb regr
emit addr_ptr (Instruction.isub rega regb regr) = Numbers.isub addr_ptr rega regb regr
emit addr_ptr (Instruction.imul rega regb regr) = Numbers.imul addr_ptr rega regb regr
emit addr_ptr (Instruction.idiv rega regb regr) = Numbers.idiv addr_ptr rega regb regr
emit addr_ptr (Instruction.iinc regno) = Numbers.iinc addr_ptr regno
emit addr_ptr (Instruction.idec regno) = Numbers.idec addr_ptr regno
emit addr_ptr (Instruction.ilt rega regb regr) = Numbers.ilt addr_ptr rega regb regr
emit addr_ptr (Instruction.ilte rega regb regr) = Numbers.ilte addr_ptr rega regb regr
emit addr_ptr (Instruction.igt rega regb regr) = Numbers.igt addr_ptr rega regb regr
emit addr_ptr (Instruction.igte rega regb regr) = Numbers.igte addr_ptr rega regb regr
emit addr_ptr (Instruction.ieq rega regb regr) = Numbers.ieq addr_ptr rega regb regr
emit addr_ptr (Instruction.fstore regno f) = Numbers.fstore addr_ptr regno f
emit addr_ptr (Instruction.fadd rega regb regr) = Numbers.fadd addr_ptr rega regb regr
emit addr_ptr (Instruction.fsub rega regb regr) = Numbers.fsub addr_ptr rega regb regr
emit addr_ptr (Instruction.fmul rega regb regr) = Numbers.fmul addr_ptr rega regb regr
emit addr_ptr (Instruction.fdiv rega regb regr) = Numbers.fdiv addr_ptr rega regb regr
emit addr_ptr (Instruction.flt rega regb regr) = Numbers.flt addr_ptr rega regb regr
emit addr_ptr (Instruction.flte rega regb regr) = Numbers.flte addr_ptr rega regb regr
emit addr_ptr (Instruction.fgt rega regb regr) = Numbers.fgt addr_ptr rega regb regr
emit addr_ptr (Instruction.fgte rega regb regr) = Numbers.fgte addr_ptr rega regb regr
emit addr_ptr (Instruction.feq rega regb regr) = Numbers.feq addr_ptr rega regb regr
emit addr_ptr (Instruction.bstore regno b) = Numbers.bstore addr_ptr regno b
emit addr_ptr (Instruction.itof a b) = Numbers.itof addr_ptr a b
emit addr_ptr (Instruction.ftoi a b) = Numbers.ftoi addr_ptr a b
emit addr_ptr (Instruction.stoi a b) = Numbers.stoi addr_ptr a b
emit addr_ptr (Instruction.stof a b) = Numbers.stof addr_ptr a b
emit addr_ptr (Instruction.strstore reg s) = Registers.strstore addr_ptr reg s
emit addr_ptr (Instruction.vec index) = Registers.vec addr_ptr index
emit addr_ptr (Instruction.vinsert vector src dst) = Registers.vinsert addr_ptr vector src dst
emit addr_ptr (Instruction.vpush vector src) = Registers.vpush addr_ptr vector src
emit addr_ptr (Instruction.vpop vector dst pos) = Registers.vpop addr_ptr vector dst pos
emit addr_ptr (Instruction.vat vector dst at) = Registers.vat addr_ptr vector dst at
emit addr_ptr (Instruction.vlen vector reg) = Registers.vlen addr_ptr vector reg
emit addr_ptr (Instruction.lognot reg) = Registers.lognot addr_ptr reg
emit addr_ptr (Instruction.logand regr rega regb) = Registers.logand addr_ptr regr rega regb
emit addr_ptr (Instruction.logor regr rega regb) = Registers.logor addr_ptr regr rega regb
emit addr_ptr (Instruction.move a b) = Registers.move addr_ptr a b
emit addr_ptr (Instruction.copy a b) = Registers.copy addr_ptr a b
emit addr_ptr (Instruction.ref a b) = Registers.ref addr_ptr a b
emit addr_ptr (Instruction.swap a b) = Registers.swap addr_ptr a b
emit addr_ptr (Instruction.free reg) = Registers.free addr_ptr reg
emit addr_ptr (Instruction.empty reg) = Registers.empty addr_ptr reg
emit addr_ptr (Instruction.isnull a b) = Registers.isnull addr_ptr a b
emit addr_ptr (Instruction.ress a) = Registers.ress addr_ptr a
emit addr_ptr (Instruction.tmpri reg) = Registers.tmpri addr_ptr reg
emit addr_ptr (Instruction.tmpro reg) = Registers.tmpro addr_ptr reg
emit addr_ptr (Instruction.print reg) = Control.print addr_ptr reg
emit addr_ptr (Instruction.echo reg) = Control.echo addr_ptr reg
emit addr_ptr (Instruction.clbind reg) = Control.clbind addr_ptr reg
emit addr_ptr (Instruction.closure reg fn) = Control.closure addr_ptr reg fn
emit addr_ptr (Instruction.function reg fn) = Control.function addr_ptr reg fn
emit addr_ptr (Instruction.fcall clsr ret) = Control.fcall addr_ptr clsr ret
emit addr_ptr (Instruction.frame a b) = Control.frame addr_ptr a b
emit addr_ptr (Instruction.param a b) = Control.param addr_ptr a b
emit addr_ptr (Instruction.paref a b) = Control.paref addr_ptr a b
emit addr_ptr (Instruction.arg a b) = Control.arg addr_ptr a b
emit addr_ptr (Instruction.argc a) = Control.argc addr_ptr a
emit addr_ptr (Instruction.call reg fn_name) = Control.call addr_ptr reg fn_name
emit addr_ptr (Instruction.jump addr kind) = Control.jump addr_ptr addr
emit addr_ptr (Instruction.branch regc addr_truth kind_truth addr_false kind_false) =
    Control.branch addr_ptr regc addr_truth addr_false
emit addr_ptr Instruction.vmtry = Control.vmtry addr_ptr
emit addr_ptr (Instruction.vmcatch type_name block_name) =
    Control.vmcatch addr_ptr type_name block_name
emit addr_ptr (Instruction.pull regno) = Control.pull addr_ptr regno
emit addr_ptr (Instruction.vmenter block_name) = Control.vmenter addr_ptr block_name
emit addr_ptr (Instruction.vmthrow regno) = Control.vmthrow addr_ptr regno
emit addr_ptr Instruction.leave = Control.leave addr_ptr
emit addr_ptr (Instruction.import module_name) = Control.import addr_ptr module_name
emit addr_ptr (Instruction.link module_name) = Control.link addr_ptr module_name
emit addr_ptr (Instruction.vmclass reg class_name) = Control.vmclass addr_ptr reg class_name
emit addr_ptr (Instruction.vmderive reg base_class_name) =
    Control.vmderive addr_ptr reg base_class_name
emit addr_ptr (Instruction.vmattach reg function_name method_name) =
    Control.vmattach addr_ptr reg function_name method_name
emit addr_ptr (Instruction.vmregister regno) = Control.vmregister addr_ptr regno
emit addr_ptr (Instruction.vmnew reg class_name) = Control.vmnew addr_ptr reg class_name
emit addr_ptr (Instruction.vmmsg reg method_name) = Control.vmmsg addr_ptr reg method_name
emit addr_ptr Instruction.end = Control.end addr_ptr
emit addr_ptr Instruction.halt = Control.halt addr_ptr
