-- ===== src/Assembler/Operands/Decimal.antt =====
-- src/cg/assembler/operands.cpp: the operands that `getint` reads, compared with their decimal text.
use viuavm.Common.{
  ℕ, zero, suc, ◌+◌, ◌-◌, ◌*◌, ◌/◌, ◌%◌, ◌≤◌, ◌<◌, ◌≡◌, ◌∙◌, refl, true, false, [], ◌∷◌, ◌++◌, All,
  ◌==◌, inl, inr, Bool-cases, ltb, leb, if◌then◌else◌, Text, arith,
}
use viuavm.Common.Throw.{Result, ok}
use viuavm.Text.{is_digit}
use viuavm.Text.Words.{sub-append}
use viuavm.Bytecode.Encode.{IntOp}
use viuavm.Assembler.Operands.{
  NumberError, is_blank, skip_blanks, decimal_from, starts_with_digit, as_positive, as_negative,
  with_digits, stoi, is_reference, get_int,
}

-- The digits of a number, the highest one first.
unfoldable pub digits_loop : ℕ → ℕ → Text
digits_loop zero n = (48 + n % 10) ∷ []
digits_loop (suc fuel) n =
    let high = digits_loop fuel (n / 10) in
    if ltb n 10 then (48 + n) ∷ [] else high ++ (48 + n % 10) ∷ []

unfoldable pub decimal : ℕ → Text
decimal n = digits_loop n n

-- A 32-bit pattern as a signed number.
abbrev pub signed_decimal : ℕ → Text
signed_decimal n = if ltb n 2147483648 then decimal n else 45 ∷ decimal (4294967296 - n)

abbrev pub written : IntOp → Text
written (true, n) = 64 ∷ signed_decimal n
written (false, n) = signed_decimal n

abbrev pub IsDigits : Text → Type 0
IsDigits = All (λ c. is_digit c ≡ true)

IsDigits-append : (s : Text) (c : ℕ) → IsDigits s → is_digit c ≡ true → IsDigits (s ++ c ∷ [])
IsDigits-append [] c h k = (k, tt)
IsDigits-append (d ∷ s) c h k = (h.0, IsDigits-append s c h.1 k)

decimal_from-append :
    (n c : ℕ) (s : Text)
    → IsDigits s
    → is_digit c ≡ true
    → decimal_from n (s ++ c ∷ []) ≡ decimal_from n s * 10 + (c - 48)
unfolding decimal_from
decimal_from-append n c [] h k = rw k refl
decimal_from-append n c (d ∷ s) h k = rw h.0 (decimal_from-append (n * 10 + (d - 48)) c s h.1 k)

low_digit : (n : ℕ) → is_digit (48 + n % 10) ≡ true
low_digit n = ground arith

small_digit : (n : ℕ) → ltb n 10 ≡ true → is_digit (48 + n) ≡ true
small_digit n h = ground arith

pub digits_loop-IsDigits : (fuel n : ℕ) → IsDigits (digits_loop fuel n)
unfolding digits_loop
digits_loop-IsDigits zero n = (low_digit n, tt)
digits_loop-IsDigits (suc fuel) n = elim (Bool-cases (ltb n 10)) [
  | inl small ↦ rw small (small_digit n small, tt)
  | inr large ↦ rw large (
      IsDigits-append (digits_loop fuel (n / 10)) (48 + n % 10) (digits_loop-IsDigits fuel (n / 10))
        (low_digit n))
]

starts-append : (s t : Text) → starts_with_digit s ≡ true → starts_with_digit (s ++ t) ≡ true
starts-append [] t h = cc
starts-append (c ∷ s) t h = h

pub digits_loop-starts : (fuel n : ℕ) → starts_with_digit (digits_loop fuel n) ≡ true
unfolding digits_loop
digits_loop-starts zero n = low_digit n
digits_loop-starts (suc fuel) n = elim (Bool-cases (ltb n 10)) [
  | inl small ↦ rw small (small_digit n small)
  | inr large ↦ rw large (
      starts-append (digits_loop fuel (n / 10)) ((48 + n % 10) ∷ [])
        (digits_loop-starts fuel (n / 10)))
]

decimal_from-digits_loop : (fuel n : ℕ) → n ≤ fuel → decimal_from 0 (digits_loop fuel n) ≡ n
unfolding digits_loop
decimal_from-digits_loop zero n h = unfold decimal_from in rw (low_digit n) (omega arith)
decimal_from-digits_loop (suc fuel) n h = elim (Bool-cases (ltb n 10)) [
  | inl small ↦ rw small (unfold decimal_from in rw (small_digit n small) (ground arith))
  | inr large ↦ rw large (
      decimal_from-append 0 (48 + n % 10) (digits_loop fuel (n / 10))
        (digits_loop-IsDigits fuel (n / 10)) (low_digit n)
      ∙ rw (decimal_from-digits_loop fuel (n / 10) (ground arith)) (omega arith))
]

with_digits-decimal :
    (sign : ℕ → Result NumberError ℕ) (n : ℕ) → with_digits sign (decimal n) ≡ sign n
unfolding decimal
with_digits-decimal sign n =
    rw (digits_loop-starts n n, decimal_from-digits_loop n n (omega arith)) refl

digit_other :
    (c : ℕ) → is_digit c ≡ true → (is_blank c ≡ false) × ((c == 45) ≡ false) × ((c == 43) ≡ false)
digit_other c h = (ground arith, ground arith, ground arith)

stoi-digits : (s : Text) → starts_with_digit s ≡ true → stoi s ≡ with_digits as_positive s
unfolding stoi skip_blanks
stoi-digits [] h = cc
stoi-digits (c ∷ s) h = let other = digit_other c h in rw (other.0, other.1, other.2) refl

stoi-minus : (s : Text) → stoi (45 ∷ s) ≡ with_digits as_negative s
unfolding stoi skip_blanks
stoi-minus s = refl

pub stoi-decimal : (n : ℕ) → n < 2147483648 → stoi (decimal n) ≡ ok n
stoi-decimal n h =
    stoi-digits (decimal n) (unfold decimal in digits_loop-starts n n)
    ∙ with_digits-decimal as_positive n
    ∙ rw (below h) refl
  where
    below : n < 2147483648 → ltb n 2147483648 ≡ true
    below h = ground arith

as_negative-pattern :
    (n : ℕ) → n < 4294967296 → ltb n 2147483648 ≡ false → as_negative (4294967296 - n) ≡ ok n
as_negative-pattern n h k = rw (small, pattern) refl
  where
    small : leb (4294967296 - n) 2147483648 ≡ true
    small = ground arith

    pattern : (4294967296 - (4294967296 - n)) % 4294967296 ≡ n
    pattern = omega arith

pub stoi-signed_decimal : (n : ℕ) → n < 4294967296 → stoi (signed_decimal n) ≡ ok n
stoi-signed_decimal n h = elim (Bool-cases (ltb n 2147483648)) [
  | inl positive ↦ rw positive (
      stoi-digits (decimal n) (unfold decimal in digits_loop-starts n n)
      ∙ with_digits-decimal as_positive n
      ∙ rw positive refl)
  | inr negative ↦ rw negative (
      stoi-minus (decimal (4294967296 - n))
      ∙ with_digits-decimal as_negative (4294967296 - n)
      ∙ as_negative-pattern n h negative)
]

pub signed_decimal-unsigned : (n : ℕ) → is_reference (signed_decimal n) ≡ false
signed_decimal-unsigned n = elim (Bool-cases (ltb n 2147483648)) [
  | inl positive ↦ rw positive (first_digit (decimal n) (unfold decimal in digits_loop-starts n n))
  | inr negative ↦ rw negative refl
]
  where
    first_digit : (s : Text) → starts_with_digit s ≡ true → is_reference s ≡ false
    first_digit [] h = refl
    first_digit (c ∷ s) h = ground arith

-- An operand that is written in decimal, with the sign of a reference where it is one, is read back by
-- `getint`, for every value of an `int`.
pub get_int-written : (a : IntOp) → a.1 < 4294967296 → get_int (written a) ≡ ok a
unfolding get_int
get_int-written (true, n) h =
    rw (sub-append (64 ∷ []) (signed_decimal n), stoi-signed_decimal n h) refl
get_int-written (false, n) h = rw (signed_decimal-unsigned n, stoi-signed_decimal n h) refl
