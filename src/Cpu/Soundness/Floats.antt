-- ===== src/Cpu/Soundness/Floats.antt =====
-- src/cpu/instr: the instructions on floats, bytes, strings and registers keep the machine sound.
use viuavm.Cpu.Machine.{Exec, Word, Address, Object}
use viuavm.Cpu.Soundness.{Keeps}
use viuavm.Cpu.Soundness.Instructions.{instruction_rules}
use viuavm.Cpu.Instructions.Floats.{
  ftoi, itof, feq, fgte, fgt, flte, flt, fdiv, fmul, fsub, fadd, convert, strstore, bstore, fstore,
  fetch_float, fetch_byte, FloatUnit,
}

pub Keeps-fetch_float : (i : Word) → Keeps (fetch_float i)
unfolding fetch_float
Keeps-fetch_float i = search instruction_rules

pub Keeps-fetch_byte : (i : Word) → Keeps (fetch_byte i)
unfolding fetch_byte
Keeps-fetch_byte i = search instruction_rules

ruleset float_rules = (instruction_rules, Keeps-fetch_float, Keeps-fetch_byte)

pub Keeps-fstore : (a : Address) → Keeps (fstore a)
unfolding fstore
Keeps-fstore a = search float_rules depth 12

pub Keeps-bstore : (a : Address) → Keeps (bstore a)
unfolding bstore
Keeps-bstore a = search float_rules depth 12

pub Keeps-strstore : (a : Address) → Keeps (strstore a)
unfolding strstore
Keeps-strstore a = search float_rules depth 12

module _ (unit : FloatUnit) where
  pub Keeps-convert :
      (f : Word → Exec Object) (a : Address) → ((i : Word) → Keeps (f i)) → Keeps (convert unit f a)
  unfolding convert
  Keeps-convert f a kf = search float_rules depth 14

  pub Keeps-fadd : (a : Address) → Keeps (fadd unit a)
  unfolding fadd
  Keeps-fadd a = search float_rules

  pub Keeps-fsub : (a : Address) → Keeps (fsub unit a)
  unfolding fsub
  Keeps-fsub a = search float_rules

  pub Keeps-fmul : (a : Address) → Keeps (fmul unit a)
  unfolding fmul
  Keeps-fmul a = search float_rules

  pub Keeps-fdiv : (a : Address) → Keeps (fdiv unit a)
  unfolding fdiv
  Keeps-fdiv a = search float_rules

  pub Keeps-flt : (a : Address) → Keeps (flt unit a)
  unfolding flt
  Keeps-flt a = search float_rules

  pub Keeps-flte : (a : Address) → Keeps (flte unit a)
  unfolding flte
  Keeps-flte a = search float_rules

  pub Keeps-fgt : (a : Address) → Keeps (fgt unit a)
  unfolding fgt
  Keeps-fgt a = search float_rules

  pub Keeps-fgte : (a : Address) → Keeps (fgte unit a)
  unfolding fgte
  Keeps-fgte a = search float_rules

  pub Keeps-feq : (a : Address) → Keeps (feq unit a)
  unfolding feq
  Keeps-feq a = search float_rules

  pub Keeps-itof : (a : Address) → Keeps (itof unit a)
  unfolding itof
  Keeps-itof a = search (float_rules, Keeps-convert)

  pub Keeps-ftoi : (a : Address) → Keeps (ftoi unit a)
  unfolding ftoi
  Keeps-ftoi a = search (float_rules, Keeps-convert)
