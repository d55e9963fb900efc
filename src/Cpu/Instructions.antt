-- ===== src/Cpu/Instructions.antt =====
-- src/cpu/instr: the handlers of the instructions on objects and registers.
pub mod Integers
pub mod Floats
pub mod Registers
pub mod Control
use viuavm.Common.{ℕ, ◌+◌, Bool, Option, none, some}
use viuavm.Cpu.Machine.{Exec, Address, Word, Object, ◌>>=◌, ◌>>◌, pure}
use viuavm.Cpu.Machine.Objects.{place_new}
use viuavm.Cpu.Machine.Operands.{Operand, operand, resolve}

-- Three operands in a row.
unfoldable pub three_operands : Address → Exec (Operand × (Operand × Operand))
three_operands addr = do
  first ← operand addr
  second ← operand (addr + 5)
  third ← operand (addr + 10)
  pure (first, (second, third))

-- `if (destination_register_ref) { first = static_cast<Integer*>(fetch(first))->value(); }`: the flag is
-- that of the destination, the register that of the first operand.
unfoldable pub resolve_again : Operand → Word → Exec Word
resolve_again destination first = resolve (destination.0, first)

-- The instructions that combine two objects: their operands are the destination, whose number is
-- used as it stands, and the registers of the two objects.
unfoldable pub combine :
    {A : Type 0} → (Word → Exec A) → (A → A → Exec Object) → Address → Exec Address
combine fetched f addr = do
  (destination, (first, second)) ← three_operands addr
  a ← resolve first
  b ← resolve second
  a' ← resolve_again destination a
  x ← fetched a'
  y ← fetched b
  o ← f x y
  place_new destination.1 o
  pure (addr + 15)
