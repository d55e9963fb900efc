-- ===== src/Cpu/Dispatch.antt =====
-- src/cpu/dispatch.cpp: the handler of each instruction.
pub mod Returns
pub mod Advances
use viuavm.Common.{ℕ, ◌+◌, Option, none, some, Text}
use viuavm.Bytecode.Opcode.{Opcode, of_byte}
use viuavm.Cpu.Machine.{maybe, Exec, Address, Object, Stop, Cause, ◌>>=◌, pure, raise, stop, read}
use viuavm.Cpu.Frames.{end}
use viuavm.Cpu.Frames.Calls.{call}
use viuavm.Cpu.Frames.Arguments.{frame, param, paref, arg, argc}
use viuavm.Cpu.Blocks.{vmtry, vmcatch, pull, vmenter, vmthrow, leave}
use viuavm.Cpu.Instructions.Integers.{
  izero, istore, iadd, isub, imul, idiv, iinc, idec, ilt, ilte, igt, igte, ieq, lognot, logand,
  logor,
}
use viuavm.Cpu.Instructions.Floats.{
  FloatUnit, fstore, fadd, fsub, fmul, fdiv, flt, flte, fgt, fgte, feq, bstore, itof, ftoi,
  strstore,
}
use viuavm.Cpu.Instructions.Registers.{
  move, copy, ref, swap, free, empty, isnull, ress, tmpri, tmpro,
}
use viuavm.Cpu.Instructions.Control.{echo, print, jump, branch}

-- What the machine is built with: the operations on floats, the text of an object, the functions of
-- extension libraries, and the handlers of vectors, closures, prototypes, modules and parsed numbers.
pub record Host : Type 0 where
  pub float_unit : FloatUnit
  pub str : Object → Text
  pub foreign_functions : Text → Option (Exec (Unit {0}))
  pub others : Opcode → Address → Exec Address

module _ (host : Host) where
  -- The handler of an opcode, with the address after it.
  unfoldable pub handler : Opcode → Address → Exec Address
  handler Opcode.nop addr = pure addr
  handler Opcode.izero addr = izero addr
  handler Opcode.istore addr = istore addr
  handler Opcode.iadd addr = iadd addr
  handler Opcode.isub addr = isub addr
  handler Opcode.imul addr = imul addr
  handler Opcode.idiv addr = idiv addr
  handler Opcode.iinc addr = iinc addr
  handler Opcode.idec addr = idec addr
  handler Opcode.ilt addr = ilt addr
  handler Opcode.ilte addr = ilte addr
  handler Opcode.igt addr = igt addr
  handler Opcode.igte addr = igte addr
  handler Opcode.ieq addr = ieq addr
  handler Opcode.fstore addr = fstore addr
  handler Opcode.fadd addr = fadd host.float_unit addr
  handler Opcode.fsub addr = fsub host.float_unit addr
  handler Opcode.fmul addr = fmul host.float_unit addr
  handler Opcode.fdiv addr = fdiv host.float_unit addr
  handler Opcode.flt addr = flt host.float_unit addr
  handler Opcode.flte addr = flte host.float_unit addr
  handler Opcode.fgt addr = fgt host.float_unit addr
  handler Opcode.fgte addr = fgte host.float_unit addr
  handler Opcode.feq addr = feq host.float_unit addr
  handler Opcode.bstore addr = bstore addr
  handler Opcode.itof addr = itof host.float_unit addr
  handler Opcode.ftoi addr = ftoi host.float_unit addr
  handler Opcode.strstore addr = strstore addr
  handler Opcode.not addr = lognot addr
  handler Opcode.and addr = logand addr
  handler Opcode.or addr = logor addr
  handler Opcode.move addr = move addr
  handler Opcode.copy addr = copy addr
  handler Opcode.ref addr = ref addr
  handler Opcode.swap addr = swap addr
  handler Opcode.free addr = free addr
  handler Opcode.empty addr = empty addr
  handler Opcode.isnull addr = isnull addr
  handler Opcode.ress addr = ress addr
  handler Opcode.tmpri addr = tmpri addr
  handler Opcode.tmpro addr = tmpro addr
  handler Opcode.print addr = print host.str addr
  handler Opcode.echo addr = echo host.str addr
  handler Opcode.frame addr = frame addr
  handler Opcode.param addr = param addr
  handler Opcode.paref addr = paref addr
  handler Opcode.arg addr = arg addr
  handler Opcode.argc addr = argc addr
  handler Opcode.call addr = call host.foreign_functions addr
  handler Opcode.jump addr = jump addr
  handler Opcode.branch addr = branch addr
  handler Opcode.try addr = vmtry addr
  handler Opcode.catch addr = vmcatch addr
  handler Opcode.pull addr = pull addr
  handler Opcode.enter addr = vmenter addr
  handler Opcode.throw addr = vmthrow addr
  handler Opcode.end addr = end
  handler Opcode.leave addr = leave
  handler Opcode.halt addr = stop Stop.halts
  handler Opcode.badd addr = raise Cause.unrecognised_instruction
  handler Opcode.bsub addr = raise Cause.unrecognised_instruction
  handler Opcode.binc addr = raise Cause.unrecognised_instruction
  handler Opcode.bdec addr = raise Cause.unrecognised_instruction
  handler Opcode.blt addr = raise Cause.unrecognised_instruction
  handler Opcode.blte addr = raise Cause.unrecognised_instruction
  handler Opcode.bgt addr = raise Cause.unrecognised_instruction
  handler Opcode.bgte addr = raise Cause.unrecognised_instruction
  handler Opcode.beq addr = raise Cause.unrecognised_instruction
  handler Opcode.streq addr = raise Cause.unrecognised_instruction
  handler Opcode.bool addr = raise Cause.unrecognised_instruction
  handler Opcode.prototype addr = raise Cause.unrecognised_instruction
  handler op addr = host.others op addr

  -- `CPU::dispatch`
  unfoldable pub dispatch : Address → Exec Address
  dispatch addr = do
    s ← read
    maybe (of_byte (s.memory addr)) (raise Cause.unrecognised_instruction)
        λ op. handler op (addr + 1)
