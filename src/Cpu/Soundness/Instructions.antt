-- ===== src/Cpu/Soundness/Instructions.antt =====
-- src/cpu/instr: the instructions on objects and registers keep the machine sound.
use viuavm.Common.{Bool}
use viuavm.Cpu.Machine.{Exec, Word, Address, Object}
use viuavm.Cpu.Machine.Operands.{Operand}
use viuavm.Cpu.Instructions.{three_operands, resolve_again, combine}
use viuavm.Cpu.Soundness.{Keeps}
use viuavm.Cpu.Soundness.Calls.{argument_rules}
use viuavm.Cpu.Instructions.Integers.{
  combine_booleans, logor, logand, lognot, idec, iinc, step_register, stepped, idiv, ieq, igte, igt,
  ilte, ilt, imul, isub, iadd, quotient_of, istore, izero,
}

pub Keeps-three_operands : (a : Address) → Keeps (three_operands a)
unfolding three_operands
Keeps-three_operands a = search argument_rules depth 8

pub Keeps-resolve_again : (d : Operand) (n : Word) → Keeps (resolve_again d n)
unfolding resolve_again
Keeps-resolve_again d n = search argument_rules

pub Keeps-combine :
    {A : Type 0} (fetched : Word → Exec A) (f : A → A → Exec Object) (a : Address)
    → ((i : Word) → Keeps (fetched i))
    → ((x y : A) → Keeps (f x y))
    → Keeps (combine fetched f a)
unfolding combine
Keeps-combine fetched f a kept kf =
    search (argument_rules, Keeps-three_operands, Keeps-resolve_again) depth 16

pub ruleset instruction_rules =
    (argument_rules, Keeps-three_operands, Keeps-resolve_again, Keeps-combine)

pub Keeps-izero : (a : Address) → Keeps (izero a)
unfolding izero
Keeps-izero a = search instruction_rules depth 12

pub Keeps-istore : (a : Address) → Keeps (istore a)
unfolding istore
Keeps-istore a = search instruction_rules depth 12

pub Keeps-quotient_of : (x y : Word) → Keeps (quotient_of x y)
unfolding quotient_of
Keeps-quotient_of x y = search instruction_rules

pub Keeps-iadd : (a : Address) → Keeps (iadd a)
unfolding iadd
Keeps-iadd a = search instruction_rules

pub Keeps-isub : (a : Address) → Keeps (isub a)
unfolding isub
Keeps-isub a = search instruction_rules

pub Keeps-imul : (a : Address) → Keeps (imul a)
unfolding imul
Keeps-imul a = search instruction_rules

pub Keeps-ilt : (a : Address) → Keeps (ilt a)
unfolding ilt
Keeps-ilt a = search instruction_rules

pub Keeps-ilte : (a : Address) → Keeps (ilte a)
unfolding ilte
Keeps-ilte a = search instruction_rules

pub Keeps-igt : (a : Address) → Keeps (igt a)
unfolding igt
Keeps-igt a = search instruction_rules

pub Keeps-igte : (a : Address) → Keeps (igte a)
unfolding igte
Keeps-igte a = search instruction_rules

pub Keeps-ieq : (a : Address) → Keeps (ieq a)
unfolding ieq
Keeps-ieq a = search instruction_rules

pub Keeps-idiv : (a : Address) → Keeps (idiv a)
unfolding idiv
Keeps-idiv a = search (instruction_rules, Keeps-quotient_of)

pub Keeps-stepped : (f : Word → Word) (b : Bool) (o : Object) → Keeps (stepped f b o)
unfolding stepped
Keeps-stepped f b (Object.integer n) = search instruction_rules
Keeps-stepped f b _ = search instruction_rules

pub Keeps-step_register : (f : Word → Word) (b : Bool) (a : Address) → Keeps (step_register f b a)
unfolding step_register
Keeps-step_register f b a = search (instruction_rules, Keeps-stepped) depth 14

pub Keeps-iinc : (a : Address) → Keeps (iinc a)
unfolding iinc
Keeps-iinc a = search Keeps-step_register

pub Keeps-idec : (a : Address) → Keeps (idec a)
unfolding idec
Keeps-idec a = search Keeps-step_register

pub Keeps-lognot : (a : Address) → Keeps (lognot a)
unfolding lognot
Keeps-lognot a = search instruction_rules depth 10

pub Keeps-logand : (a : Address) → Keeps (logand a)
unfolding logand combine_booleans
Keeps-logand a = search instruction_rules depth 16

pub Keeps-logor : (a : Address) → Keeps (logor a)
unfolding logor combine_booleans
Keeps-logor a = search instruction_rules depth 16
