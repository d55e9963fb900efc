-- ===== src/Cpu/Soundness/Registers.antt =====
-- src/cpu/instr/registers.cpp and general.cpp: the instructions on registers and jumps keep the machine
-- sound.
use viuavm.Common.{=ᵗ-refl, arith, ◌≡◌, refl, Option, none, some, List, [], ◌∷◌, Text}
use viuavm.Cpu.RegisterSet.{RegisterSet}
use viuavm.Cpu.Frames.{frames_back, back}
use viuavm.Cpu.Machine.{
  maybe, lookup, read, find_frame, Cpu, Frame, Word, Address, Object, Selected, ◌>>=◌, ◌>>◌, pure,
  modify, deref,
}
use viuavm.Cpu.Instructions.Registers.{
  second_then_first, free_register, move, copy, ref, swap, free, empty, isnull, tmpri, tmpro, ress,
  select, add_static, ensure_static_registers, select_local, ensure_and_select, select_static,
  select_registers,
}
use viuavm.Cpu.Instructions.Control.{echo, print, jump, branch}
use viuavm.Cpu.Soundness.{Keeps, IsSound, After}
use viuavm.Cpu.Soundness.Instructions.{instruction_rules}

pub Keeps-second_then_first : (a : Address) → Keeps (second_then_first a)
unfolding second_then_first
Keeps-second_then_first a = search instruction_rules depth 10

pub Keeps-free_register : (i : Word) → Keeps (free_register i)
unfolding free_register
Keeps-free_register i = search instruction_rules depth 10

ruleset register_rules = (instruction_rules, Keeps-second_then_first, Keeps-free_register)

pub Keeps-move : (a : Address) → Keeps (move a)
unfolding move
Keeps-move a = search register_rules depth 16

pub Keeps-copy : (a : Address) → Keeps (copy a)
unfolding copy
Keeps-copy a = search register_rules depth 16

pub Keeps-ref : (a : Address) → Keeps (ref a)
unfolding ref
Keeps-ref a = search register_rules depth 16

pub Keeps-swap : (a : Address) → Keeps (swap a)
unfolding swap
Keeps-swap a = search register_rules depth 16

pub Keeps-free : (a : Address) → Keeps (free a)
unfolding free
Keeps-free a = search register_rules depth 16

pub Keeps-empty : (a : Address) → Keeps (empty a)
unfolding empty
Keeps-empty a = search register_rules depth 16

pub Keeps-isnull : (a : Address) → Keeps (isnull a)
unfolding isnull
Keeps-isnull a = search register_rules depth 16

pub Keeps-tmpri : (a : Address) → Keeps (tmpri a)
unfolding tmpri
Keeps-tmpri a = search register_rules depth 16

pub Keeps-tmpro : (a : Address) → Keeps (tmpro a)
unfolding tmpro
Keeps-tmpro a = search register_rules depth 16

Keeps-select_global : Keeps (select Selected.global)
unfolding select modify
Keeps-select_global = record {
  from =
      λ s h. record { bounded = h.bounded; has_globals = h.has_globals; selects = h.has_globals };
}

-- The registers that are selected are those of a frame on the stack.
back-IsSound :
    (frames : List Frame) (s : Cpu)
    → s.frames ≡ frames
    → IsSound s
    → After IsSound ((do top ← deref (back frames); select (Selected.local top.this)) s)
unfolding back deref select modify find_frame ◌>>=◌
back-IsSound [] s e h = h
back-IsSound (f ∷ rest) s e h = record {
  bounded = h.bounded;
  has_globals = h.has_globals;
  selects = rw e (ground arith);
}

Keeps-select_local : Keeps select_local
unfolding select_local frames_back read ◌>>=◌
Keeps-select_local = record { from = λ s h. back-IsSound s.frames s refl h }

-- The static registers are there once they have been made sure of.
ensured-IsSound :
    (o : Option RegisterSet) (name : Text) (s : Cpu)
    → lookup name s.static_registers ≡ o
    → IsSound s
    → After IsSound ((maybe o (add_static name) (λ rs. pure tt) >> select (Selected.static name)) s)
unfolding add_static select modify pure lookup ◌>>=◌ ◌>>◌
ensured-IsSound none name s e h = record {
  bounded = h.bounded;
  has_globals = h.has_globals;
  selects = ground (arith, =ᵗ-refl name);
}
ensured-IsSound (some rs) name s e h = record {
  bounded = h.bounded;
  has_globals = h.has_globals;
  selects = rw e refl;
}

Keeps-ensure_and_select : (name : Text) → Keeps (ensure_and_select name)
unfolding ensure_and_select ensure_static_registers read ◌>>=◌ ◌>>◌
Keeps-ensure_and_select name = record {
  from = λ s h. ensured-IsSound (lookup name s.static_registers) name s refl h;
}

Keeps-select_static : Keeps select_static
unfolding select_static
Keeps-select_static = search (register_rules, Keeps-ensure_and_select)

Keeps-select_registers : (n : Word) → Keeps (select_registers n)
unfolding select_registers
Keeps-select_registers n =
    search (register_rules, Keeps-select_global, Keeps-select_local, Keeps-select_static)

-- The register set that `ress` selects is there when it is selected.
pub Keeps-ress : (a : Address) → Keeps (ress a)
unfolding ress
Keeps-ress a = search (register_rules, Keeps-select_registers)

module _ (str : Object → Text) where
  pub Keeps-echo : (a : Address) → Keeps (echo str a)
  unfolding echo
  Keeps-echo a = search register_rules depth 10

  pub Keeps-print : (a : Address) → Keeps (print str a)
  unfolding print
  Keeps-print a = search (register_rules, Keeps-echo)

pub Keeps-jump : (a : Address) → Keeps (jump a)
unfolding jump
Keeps-jump a = search register_rules depth 8

pub Keeps-branch : (a : Address) → Keeps (branch a)
unfolding branch
Keeps-branch a = search register_rules depth 10
