-- ===== src/Cpu/Instructions/Registers.antt =====
-- src/cpu/instr/registers.cpp: the instructions on registers.
use viuavm.Common.{◌==◌, not, ◌+◌, if◌then◌else◌, none, some, [], ◌∷◌, Text}
use viuavm.Cpu.RegisterSet.{
  deletes, at, get, register_set, move as move_in, swap as swap_in, free as free_in,
  empty as empty_in,
}
use viuavm.Cpu.Machine.{
  maybe, is_some, Exec, Address, Word, Object, Cause, Selected, ◌>>=◌, ◌>>◌, pure, raise, read,
  modify, deref, lookup, with_used,
}
use viuavm.Cpu.Machine.Objects.{
  registers, lift, on_registers, set_register, is_reference, perform, fetch, copy_object, place,
  place_new,
}
use viuavm.Cpu.Machine.Operands.{operand, resolve, read_int}
use viuavm.Cpu.Frames.{frames_back}
use viuavm.Cpu.Frames.Arguments.{wrap_in_reference, as_reference}

-- Two operands in a row, the second of which is resolved first: their registers.
unfoldable pub second_then_first : Address → Exec (Word × Word)
second_then_first addr = do
  first ← operand addr
  second ← operand (addr + 5)
  object_index ← resolve second
  destination ← resolve first
  pure (destination, object_index)

-- `CPU::move`
unfoldable pub move : Address → Exec Address
move addr = do
  (destination, object_index) ← second_then_first addr
  on_registers (λ rs. move_in rs object_index destination)
  pure (addr + 10)

-- `CPU::copy`
unfoldable pub copy : Address → Exec Address
copy addr = do
  (destination, object_index) ← second_then_first addr
  object ← fetch object_index
  p ← deref object
  q ← copy_object p
  place destination (some q)
  pure (addr + 10)

-- `CPU::ref`
unfoldable pub ref : Address → Exec Address
ref addr = do
  (destination, object_index) ← second_then_first addr
  rs ← registers
  object ← lift (at rs object_index)
  is_ref ← as_reference object
  rf ← if is_ref then deref object else wrap_in_reference object_index object
  shared ← copy_object rf
  set_register destination (some shared)
  pure (addr + 10)

-- `CPU::swap`
unfoldable pub swap : Address → Exec Address
swap addr = do
  first ← operand addr
  second ← operand (addr + 5)
  a ← resolve first
  b ← resolve second
  on_registers (λ rs. swap_in rs a b)
  pure (addr + 10)

-- `uregset->free(index)`
unfoldable pub free_register : Word → Exec (Unit {0})
free_register index = do
  rs ← registers
  (rs', effects) ← lift (free_in rs index)
  modify (with_used rs')
  perform effects

-- `CPU::free`
unfoldable pub free : Address → Exec Address
free addr = do first ← operand addr; target ← resolve first; free_register target; pure (addr + 5)

-- `CPU::empty`: a reference is deleted.
unfoldable pub empty : Address → Exec Address
empty addr = do
  first ← operand addr
  target ← resolve first
  rs ← registers
  object ← lift (get rs target)
  s ← read
  perform (if is_reference s object then deletes object ∷ [] else [])
  on_registers (λ rs'. empty_in rs' target)
  pure (addr + 5)

-- `CPU::isnull`
unfoldable pub isnull : Address → Exec Address
isnull addr = do
  (destination, checked) ← second_then_first addr
  rs ← registers
  p ← lift (at rs checked)
  place_new destination (Object.boolean (not (is_some p)))
  pure (addr + 10)

unfoldable pub add_static : Text → Exec (Unit {0})
add_static name =
    modify λ t. record t { static_registers = (name, register_set 16) ∷ t.static_registers }

-- `CPU::ensureStaticRegisters`
unfoldable pub ensure_static_registers : Text → Exec (Unit {0})
ensure_static_registers function_name = do
  s ← read
  maybe (lookup function_name s.static_registers) (add_static function_name) λ rs. pure tt

-- `uregset = …`
unfoldable pub select : Selected → Exec (Unit {0})
select selected = modify λ t. record t { uregset = selected }

unfoldable pub select_local : Exec (Unit {0})
select_local = do top ← frames_back; select (Selected.local top.this)

unfoldable pub ensure_and_select : Text → Exec (Unit {0})
ensure_and_select function_name = do
  ensure_static_registers function_name
  select (Selected.static function_name)

unfoldable pub select_static : Exec (Unit {0})
select_static = do top ← frames_back; ensure_and_select top.function_name

-- The register set that the number in a `ress` instruction stands for.
unfoldable pub select_registers : Word → Exec (Unit {0})
select_registers n =
    if n == 0
    then select Selected.global
    else if n == 1
    then select_local
    else if n == 2
    then select_static
    else raise Cause.illegal_register_set

-- `CPU::ress`
unfoldable pub ress : Address → Exec Address
ress addr = do s ← read; select_registers (read_int s.memory addr); pure (addr + 4)

-- `CPU::tmpri`: what the temporary register held is lost.
unfoldable pub tmpri : Address → Exec Address
tmpri addr = do
  first ← operand addr
  source ← resolve first
  rs ← registers
  p ← lift (get rs source)
  q ← copy_object p
  modify (λ t. record t { tmp = some q })
  pure (addr + 5)

-- `CPU::tmpro`
unfoldable pub tmpro : Address → Exec Address
tmpro addr = do
  first ← operand addr
  destination ← resolve first
  rs ← registers
  p ← lift (at rs destination)
  if is_some p then free_register destination else pure tt
  s ← read
  set_register destination s.tmp
  modify (λ t. record t { tmp = none })
  pure (addr + 5)
