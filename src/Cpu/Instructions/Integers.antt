-- ===== src/Cpu/Instructions/Integers.antt =====
-- src/cpu/instr/int.cpp and src/cpu/instr/bool.cpp. An `int` is its 32-bit pattern, and arithmetic wraps;
-- the quotient that does not exist or does not fit is undefined behaviour.
use viuavm.Common.{
  ◌∷◌, ℕ, ◌+◌, ◌-◌, ◌*◌, ◌/◌, ◌%◌, ◌==◌, ◌&&◌, ◌||◌, not, Bool, true, false, if◌then◌else◌, ltb,
  leb,
}
use viuavm.Cpu.Machine.{modify, deref, Exec, Address, Word, Object, Stop, ◌>>=◌, ◌>>◌, pure, stop}
use viuavm.Cpu.Machine.Objects.{object_at, fetch, fetch_as_integer, fetch_boolean, place_new}
use viuavm.Cpu.Machine.Operands.{operand, resolve}
use viuavm.Cpu.Instructions.{combine, resolve_again, three_operands}

-- The number 2 ^ 32 of patterns, and the first that stands for a negative number.
abbrev pub patterns : ℕ
patterns = 4294967296

abbrev pub first_negative : ℕ
first_negative = 2147483648

unfoldable pub add32 : Word → Word → Word
add32 a b = (a + b) % patterns

unfoldable pub negate32 : Word → Word
negate32 a = (patterns - a) % patterns

unfoldable pub sub32 : Word → Word → Word
sub32 a b = (a + (patterns - b)) % patterns

unfoldable pub mul32 : Word → Word → Word
mul32 a b = a * b % patterns

-- Order of signed numbers, by their patterns.
unfoldable pub less32 : Word → Word → Bool
less32 a b = ltb ((a + first_negative) % patterns) ((b + first_negative) % patterns)

-- The absolute value, and the quotient rounded towards zero.
abbrev pub is_negative : Word → Bool
is_negative a = leb first_negative a

unfoldable pub magnitude : Word → ℕ
magnitude a = if is_negative a then patterns - a else a

unfoldable pub same_sign : Bool → Bool → Bool
same_sign true b = b
same_sign false b = not b

unfoldable pub div32 : Word → Word → Word
div32 a b =
    let quotient = magnitude a / magnitude b in
    if same_sign (is_negative a) (is_negative b) then quotient else negate32 quotient

-- `CPU::izero`
unfoldable pub izero : Address → Exec Address
izero addr = do
  first ← operand addr
  destination ← resolve first
  place_new destination (Object.integer 0)
  pure (addr + 5)

-- `CPU::istore`
unfoldable pub istore : Address → Exec Address
istore addr = do
  first ← operand addr
  second ← operand (addr + 5)
  destination ← resolve first
  number ← resolve second
  place_new destination (Object.integer number)
  pure (addr + 10)

unfoldable pub iadd : Address → Exec Address
iadd = combine fetch_as_integer λ a b. pure (Object.integer (add32 a b))

unfoldable pub isub : Address → Exec Address
isub = combine fetch_as_integer λ a b. pure (Object.integer (sub32 a b))

unfoldable pub imul : Address → Exec Address
imul = combine fetch_as_integer λ a b. pure (Object.integer (mul32 a b))

-- Division by zero, and that of the least number by -1, are undefined.
unfoldable pub quotient_of : Word → Word → Exec Object
quotient_of a b =
    if b == 0 || (a == first_negative && b == 4294967295)
    then stop Stop.undefined
    else pure (Object.integer (div32 a b))

unfoldable pub idiv : Address → Exec Address
idiv = combine fetch_as_integer quotient_of

unfoldable pub ilt : Address → Exec Address
ilt = combine fetch_as_integer λ a b. pure (Object.boolean (less32 a b))

unfoldable pub ilte : Address → Exec Address
ilte = combine fetch_as_integer λ a b. pure (Object.boolean (not (less32 b a)))

unfoldable pub igt : Address → Exec Address
igt = combine fetch_as_integer λ a b. pure (Object.boolean (less32 b a))

unfoldable pub igte : Address → Exec Address
igte = combine fetch_as_integer λ a b. pure (Object.boolean (not (less32 a b)))

unfoldable pub ieq : Address → Exec Address
ieq = combine fetch_as_integer λ a b. pure (Object.boolean (a == b))

-- `increment()` and `decrement()` change the object in place; a Boolean becomes true, and false.
unfoldable pub stepped : (Word → Word) → Bool → Object → Exec Object
stepped f b (Object.integer n) = pure (Object.integer (f n))
stepped f b (Object.boolean old) = pure (Object.boolean b)
stepped f b _ = stop Stop.undefined

unfoldable pub step_register : (Word → Word) → Bool → Address → Exec Address
step_register f b addr = do
  first ← operand addr
  target ← resolve first
  found ← fetch target
  p ← deref found
  o ← object_at p
  changed ← stepped f b o
  modify (λ t. record t { objects = (p, changed) ∷ t.objects })
  pure (addr + 5)

unfoldable pub iinc : Address → Exec Address
iinc = step_register (λ n. add32 n 1) true

unfoldable pub idec : Address → Exec Address
idec = step_register (λ n. sub32 n 1) false

-- `CPU::lognot`
unfoldable pub lognot : Address → Exec Address
lognot addr = do
  first ← operand addr
  regno ← resolve first
  b ← fetch_boolean regno
  place_new regno (Object.boolean (not b))
  pure (addr + 5)

-- `logand` and `logor`: the flag of the destination is used first here.
unfoldable pub combine_booleans : (Exec Bool → Exec Bool → Exec Bool) → Address → Exec Address
combine_booleans f addr = do
  (destination, (first, second)) ← three_operands addr
  a ← resolve_again destination first.1
  a' ← resolve (first.0, a)
  b ← resolve second
  truth ← f (fetch_boolean a') (fetch_boolean b)
  place_new destination.1 (Object.boolean truth)
  pure (addr + 15)

unfoldable pub logand : Address → Exec Address
logand = combine_booleans λ x y. do a ← x; if a then y else pure false

unfoldable pub logor : Address → Exec Address
logor = combine_booleans λ x y. do a ← x; if a then pure true else y
