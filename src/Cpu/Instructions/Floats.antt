-- ===== src/Cpu/Instructions/Floats.antt =====
-- src/cpu/instr/float.cpp, byte.cpp, cast.cpp and str.cpp. A `float` is its 32-bit pattern, and what the
-- processor and the standard library do with it are parameters.
use viuavm.Common.{ltb, ℕ, ◌+◌, Bool, if◌then◌else◌, Option, none, some, Text}
use viuavm.Cpu.Machine.{Exec, Address, Word, Object, ◌>>=◌, ◌>>◌, pure, read, deref}
use viuavm.Cpu.Machine.Objects.{fetch_object, fetch_integer, place_new}
use viuavm.Cpu.Machine.Operands.{operand, resolve, read_int, read_bool, text_at, after_text}
use viuavm.Cpu.Instructions.{combine}
use viuavm.Text.{strdecode}

-- `static_cast<Float*>(p)->value()`, `static_cast<Byte*>(p)->value()` and `static_cast<String*>(p)->value()`.
unfoldable pub float_of : Object → Option ℕ
float_of (Object.floating bits) = some bits
float_of _ = none

unfoldable pub byte_of : Object → Option ℕ
byte_of (Object.byte b) = some b
byte_of _ = none

unfoldable pub string_of : Object → Option Text
string_of (Object.string t) = some t
string_of _ = none

unfoldable pub fetch_float : Word → Exec ℕ
fetch_float index = do o ← fetch_object index; deref (float_of o)

unfoldable pub fetch_byte : Word → Exec ℕ
fetch_byte index = do o ← fetch_object index; deref (byte_of o)

-- `CPU::fstore`
unfoldable pub fstore : Address → Exec Address
fstore addr = do
  first ← operand addr
  s ← read
  destination ← resolve first
  place_new destination (Object.floating (read_int s.memory (addr + 5)))
  pure (addr + 9)

-- The operations on floats.
pub record FloatUnit : Type 0 where
  pub add : ℕ → ℕ → ℕ
  pub sub : ℕ → ℕ → ℕ
  pub mul : ℕ → ℕ → ℕ
  pub div : ℕ → ℕ → ℕ
  pub lt : ℕ → ℕ → Bool
  pub lte : ℕ → ℕ → Bool
  pub gt : ℕ → ℕ → Bool
  pub gte : ℕ → ℕ → Bool
  pub eq : ℕ → ℕ → Bool
  pub of_int : ℕ → ℕ
  pub to_int : ℕ → ℕ

module _ (unit : FloatUnit) where
  unfoldable pub fadd : Address → Exec Address
  fadd = combine fetch_float λ a b. pure (Object.floating (unit.add a b))

  unfoldable pub fsub : Address → Exec Address
  fsub = combine fetch_float λ a b. pure (Object.floating (unit.sub a b))

  unfoldable pub fmul : Address → Exec Address
  fmul = combine fetch_float λ a b. pure (Object.floating (unit.mul a b))

  unfoldable pub fdiv : Address → Exec Address
  fdiv = combine fetch_float λ a b. pure (Object.floating (unit.div a b))

  unfoldable pub flt : Address → Exec Address
  flt = combine fetch_float λ a b. pure (Object.boolean (unit.lt a b))

  unfoldable pub flte : Address → Exec Address
  flte = combine fetch_float λ a b. pure (Object.boolean (unit.lte a b))

  unfoldable pub fgt : Address → Exec Address
  fgt = combine fetch_float λ a b. pure (Object.boolean (unit.gt a b))

  unfoldable pub fgte : Address → Exec Address
  fgte = combine fetch_float λ a b. pure (Object.boolean (unit.gte a b))

  unfoldable pub feq : Address → Exec Address
  feq = combine fetch_float λ a b. pure (Object.boolean (unit.eq a b))

  -- The conversions: the register of the object is resolved first, then the destination.
  unfoldable pub convert : (Word → Exec Object) → Address → Exec Address
  convert f addr = do
    first ← operand addr
    second ← operand (addr + 5)
    source ← resolve second
    destination ← resolve first
    o ← f source
    place_new destination o
    pure (addr + 10)

  unfoldable pub itof : Address → Exec Address
  itof = convert λ source. do n ← fetch_integer source; pure (Object.floating (unit.of_int n))

  unfoldable pub ftoi : Address → Exec Address
  ftoi = convert λ source. do x ← fetch_float source; pure (Object.integer (unit.to_int x))

-- `(int)operand` of a `char`, as a 32-bit pattern.
unfoldable pub signed_byte : ℕ → Word
signed_byte b = if ltb b 128 then b else b + 4294967040

-- `CPU::bstore`
unfoldable pub bstore : Address → Exec Address
bstore addr = do
  first ← operand addr
  s ← read
  let operand_ref = read_bool s.memory (addr + 5)
  let number = s.memory (addr + 6)
  destination ← resolve first
  b ← if operand_ref then fetch_byte (signed_byte number) else pure number
  place_new destination (Object.byte b)
  pure (addr + 7)

-- `CPU::strstore`
unfoldable pub strstore : Address → Exec Address
strstore addr = do
  first ← operand addr
  svalue ← text_at (addr + 5)
  reg ← resolve first
  place_new reg (Object.string (strdecode svalue))
  pure (after_text (addr + 5) svalue)
