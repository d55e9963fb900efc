-- ===== src/Cpu/Soundness/Dispatch.antt =====
-- src/cpu/dispatch.cpp : every instruction keeps the machine sound.
use viuavm.Common.{◌≡◌, refl, Option, none, some, Text}
use viuavm.Bytecode.Opcode.{Opcode}
use viuavm.Cpu.Machine.{Exec, Stop, Cause, Address, maybe, raise}
use viuavm.Cpu.Dispatch.{Host, handler, dispatch}
use viuavm.Cpu.Soundness.{Keeps, Keeps-pure, Keeps-raise, Keeps-stop}
use viuavm.Cpu.Soundness.Frames.{Keeps-end}
use viuavm.Cpu.Soundness.Calls.{
  Keeps-call, Keeps-argc, Keeps-arg, Keeps-paref, Keeps-param, Keeps-frame, call_rules,
}
use viuavm.Cpu.Soundness.Instructions.{
  Keeps-logor, Keeps-logand, Keeps-lognot, Keeps-ieq, Keeps-igte, Keeps-igt, Keeps-ilte, Keeps-ilt,
  Keeps-idec, Keeps-iinc, Keeps-idiv, Keeps-imul, Keeps-isub, Keeps-iadd, Keeps-istore, Keeps-izero,
}
use viuavm.Cpu.Soundness.Floats.{
  Keeps-strstore, Keeps-ftoi, Keeps-itof, Keeps-bstore, Keeps-feq, Keeps-fgte, Keeps-fgt,
  Keeps-flte, Keeps-flt, Keeps-fdiv, Keeps-fmul, Keeps-fsub, Keeps-fadd, Keeps-fstore,
}
use viuavm.Cpu.Soundness.Registers.{
  Keeps-branch, Keeps-jump, Keeps-echo, Keeps-print, Keeps-tmpro, Keeps-tmpri, Keeps-ress,
  Keeps-isnull, Keeps-empty, Keeps-free, Keeps-swap, Keeps-ref, Keeps-copy, Keeps-move,
}
use viuavm.Cpu.Soundness.Blocks.{
  Keeps-leave, Keeps-vmthrow, Keeps-vmenter, Keeps-pull, Keeps-vmcatch, Keeps-vmtry,
}

-- The code that is not modelled keeps the machine sound too.
pub record IsTrusted (host : Host) : Type 0 where
  pub others : (op : Opcode) (a : Address) → Keeps (host.others op a)
  pub foreign :
      (name : Text) (callback : Exec (Unit {0}))
      → host.foreign_functions name ≡ some callback
      → Keeps callback

foreign-Keeps :
    (o : Option (Exec (Unit {0}))) (c : Cause)
    → ((callback : Exec (Unit {0})) → o ≡ some callback → Keeps callback)
    → Keeps (maybe o (raise c) λ callback. callback)
foreign-Keeps none c k = Keeps-raise c
foreign-Keeps (some callback) c k = k callback refl

module _ (host : Host) (trusted : IsTrusted host) where
  pub Keeps-handler : (op : Opcode) (a : Address) → Keeps (handler host op a)
  unfolding handler
  Keeps-handler Opcode.nop a = Keeps-pure a
  Keeps-handler Opcode.izero a = Keeps-izero a
  Keeps-handler Opcode.istore a = Keeps-istore a
  Keeps-handler Opcode.iadd a = Keeps-iadd a
  Keeps-handler Opcode.isub a = Keeps-isub a
  Keeps-handler Opcode.imul a = Keeps-imul a
  Keeps-handler Opcode.idiv a = Keeps-idiv a
  Keeps-handler Opcode.iinc a = Keeps-iinc a
  Keeps-handler Opcode.idec a = Keeps-idec a
  Keeps-handler Opcode.ilt a = Keeps-ilt a
  Keeps-handler Opcode.ilte a = Keeps-ilte a
  Keeps-handler Opcode.igt a = Keeps-igt a
  Keeps-handler Opcode.igte a = Keeps-igte a
  Keeps-handler Opcode.ieq a = Keeps-ieq a
  Keeps-handler Opcode.fstore a = Keeps-fstore a
  Keeps-handler Opcode.fadd a = Keeps-fadd host.float_unit a
  Keeps-handler Opcode.fsub a = Keeps-fsub host.float_unit a
  Keeps-handler Opcode.fmul a = Keeps-fmul host.float_unit a
  Keeps-handler Opcode.fdiv a = Keeps-fdiv host.float_unit a
  Keeps-handler Opcode.flt a = Keeps-flt host.float_unit a
  Keeps-handler Opcode.flte a = Keeps-flte host.float_unit a
  Keeps-handler Opcode.fgt a = Keeps-fgt host.float_unit a
  Keeps-handler Opcode.fgte a = Keeps-fgte host.float_unit a
  Keeps-handler Opcode.feq a = Keeps-feq host.float_unit a
  Keeps-handler Opcode.bstore a = Keeps-bstore a
  Keeps-handler Opcode.itof a = Keeps-itof host.float_unit a
  Keeps-handler Opcode.ftoi a = Keeps-ftoi host.float_unit a
  Keeps-handler Opcode.strstore a = Keeps-strstore a
  Keeps-handler Opcode.not a = Keeps-lognot a
  Keeps-handler Opcode.and a = Keeps-logand a
  Keeps-handler Opcode.or a = Keeps-logor a
  Keeps-handler Opcode.move a = Keeps-move a
  Keeps-handler Opcode.copy a = Keeps-copy a
  Keeps-handler Opcode.ref a = Keeps-ref a
  Keeps-handler Opcode.swap a = Keeps-swap a
  Keeps-handler Opcode.free a = Keeps-free a
  Keeps-handler Opcode.empty a = Keeps-empty a
  Keeps-handler Opcode.isnull a = Keeps-isnull a
  Keeps-handler Opcode.ress a = Keeps-ress a
  Keeps-handler Opcode.tmpri a = Keeps-tmpri a
  Keeps-handler Opcode.tmpro a = Keeps-tmpro a
  Keeps-handler Opcode.print a = Keeps-print host.str a
  Keeps-handler Opcode.echo a = Keeps-echo host.str a
  Keeps-handler Opcode.frame a = Keeps-frame a
  Keeps-handler Opcode.param a = Keeps-param a
  Keeps-handler Opcode.paref a = Keeps-paref a
  Keeps-handler Opcode.arg a = Keeps-arg a
  Keeps-handler Opcode.argc a = Keeps-argc a
  Keeps-handler Opcode.call a =
      Keeps-call host.foreign_functions
        (λ name. foreign-Keeps (host.foreign_functions name) _ (trusted.foreign name)) a
  Keeps-handler Opcode.jump a = Keeps-jump a
  Keeps-handler Opcode.branch a = Keeps-branch a
  Keeps-handler Opcode.try a = Keeps-vmtry a
  Keeps-handler Opcode.catch a = Keeps-vmcatch a
  Keeps-handler Opcode.pull a = Keeps-pull a
  Keeps-handler Opcode.enter a = Keeps-vmenter a
  Keeps-handler Opcode.throw a = Keeps-vmthrow a
  Keeps-handler Opcode.end a = Keeps-end
  Keeps-handler Opcode.leave a = Keeps-leave
  Keeps-handler Opcode.halt a = Keeps-stop Stop.halts
  Keeps-handler Opcode.badd a = Keeps-raise Cause.unrecognised_instruction
  Keeps-handler Opcode.bsub a = Keeps-raise Cause.unrecognised_instruction
  Keeps-handler Opcode.binc a = Keeps-raise Cause.unrecognised_instruction
  Keeps-handler Opcode.bdec a = Keeps-raise Cause.unrecognised_instruction
  Keeps-handler Opcode.blt a = Keeps-raise Cause.unrecognised_instruction
  Keeps-handler Opcode.blte a = Keeps-raise Cause.unrecognised_instruction
  Keeps-handler Opcode.bgt a = Keeps-raise Cause.unrecognised_instruction
  Keeps-handler Opcode.bgte a = Keeps-raise Cause.unrecognised_instruction
  Keeps-handler Opcode.beq a = Keeps-raise Cause.unrecognised_instruction
  Keeps-handler Opcode.streq a = Keeps-raise Cause.unrecognised_instruction
  Keeps-handler Opcode.bool a = Keeps-raise Cause.unrecognised_instruction
  Keeps-handler Opcode.prototype a = Keeps-raise Cause.unrecognised_instruction
  Keeps-handler op a = trusted.others op a

  pub Keeps-dispatch : (a : Address) → Keeps (dispatch host a)
  unfolding dispatch
  Keeps-dispatch a = search (call_rules, Keeps-handler)
