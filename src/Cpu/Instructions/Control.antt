-- ===== src/Cpu/Instructions/Control.antt =====
-- src/cpu/instr/general.cpp: output and jumps.
use viuavm.Common.{◌-◌, ◌==◌, ltb, ◌+◌, if◌then◌else◌, ◌∷◌, Text, codes}
use viuavm.Cpu.Machine.{Exec, Address, Word, Object, Cause, ◌>>=◌, ◌>>◌, pure, raise, read, modify}
use viuavm.Cpu.Machine.Objects.{fetch_object, fetch_boolean}
use viuavm.Cpu.Machine.Operands.{operand, resolve, read_int}

-- `str()` of an object.
module _ (str : Object → Text) where
  -- `CPU::echo`
  unfoldable pub echo : Address → Exec Address
  echo addr = do
    first ← operand addr
    index ← resolve first
    o ← fetch_object index
    modify (λ t. record t { output = str o ∷ t.output })
    pure (addr + 5)

  -- `CPU::print`
  unfoldable pub print : Address → Exec Address
  print addr = do
    next_addr ← echo addr
    modify (λ t. record t { output = codes "\n" ∷ t.output })
    pure next_addr

-- `byte*` plus an `int`: a negative offset goes back.
unfoldable pub offset : Address → Word → Address
offset base n = if ltb n 2147483648 then base + n else base + n - 4294967296

-- `CPU::jump`
unfoldable pub jump : Address → Exec Address
jump addr = do
  s ← read
  let target = offset s.jump_base (read_int s.memory addr)
  if target == addr then raise Cause.jump_to_itself else pure target

-- `CPU::branch`
unfoldable pub branch : Address → Exec Address
branch addr = do
  first ← operand addr
  s ← read
  index ← resolve first
  truth ← fetch_boolean index
  let chosen = if truth then read_int s.memory (addr + 5) else read_int s.memory (addr + 9)
  t ← read
  pure (offset t.jump_base chosen)
