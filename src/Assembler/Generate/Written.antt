-- ===== src/Assembler/Generate/Written.antt =====
-- src/front/asm/generate.cpp: operands that are written in decimal, as `resolveregister` and
-- src/cg/assembler/operands.cpp read them.
use viuavm.Common.{
  drop, ◌%◌, ◌-◌, ◌==◌, ℕ, ◌<◌, ◌≡◌, refl, Bool, true, false, List, [], ◌∷◌, inl, inr, Bool-cases,
  ltb, length, Text, arith, drop-length_append,
}
use viuavm.Common.Throw.{ok}
use viuavm.Text.{is_digit, is_space, isnum, isnum_loop, chunk, lstrip, join, sub, End}
use viuavm.Text.Words.{IsWord, IsSolid, sub-append, lstrip-Starts_eq}
use viuavm.Bytecode.Encode.{ByteOp, IntOp}
use viuavm.Bytecode.Program.Count.{without_literal}
use viuavm.Bytecode.Program.Lines.{
  extract-literal, IsLiteral, spaced, chunk-spaced, without_chunk-spaced, spaced-Starts,
}
use viuavm.Assembler.Operands.{get_byte, get2, get3, starts_with_digit}
use viuavm.Assembler.Operands.Decimal.{
  signed_decimal-unsigned, stoi-signed_decimal, IsDigits, decimal, signed_decimal, written,
  digits_loop-IsDigits, digits_loop-starts, get_int-written,
}
use viuavm.Assembler.Generate.{resolve_register, register}

isnum_loop-digits : (s : Text) → IsDigits s → isnum_loop true s ≡ true
unfolding isnum_loop
isnum_loop-digits [] h = refl
isnum_loop-digits (c ∷ s) h = rw h.0 (isnum_loop-digits s h.1)

isnum_loop-starts : (s : Text) → IsDigits s → starts_with_digit s ≡ true → isnum_loop false s ≡ true
unfolding isnum_loop
isnum_loop-starts [] h k = cc
isnum_loop-starts (c ∷ s) h k = rw h.0 (isnum_loop-digits s h.1)

isnum-digits :
    (s : Text) (negatives : Bool)
    → IsDigits s
    → starts_with_digit s ≡ true
    → isnum s negatives ≡ true
unfolding isnum
isnum-digits [] negatives h k = cc
isnum-digits (c ∷ s) negatives h k = rw (not_minus c h.0) (isnum_loop-starts (c ∷ s) h k)
  where
    not_minus : (c : ℕ) → is_digit c ≡ true → (c == 45) ≡ false
    not_minus c h = ground arith

pub isnum-decimal : (n : ℕ) (negatives : Bool) → isnum (decimal n) negatives ≡ true
unfolding decimal
isnum-decimal n negatives =
    isnum-digits _ negatives (digits_loop-IsDigits n n) (digits_loop-starts n n)

isnum-signed_decimal : (n : ℕ) → isnum (signed_decimal n) true ≡ true
isnum-signed_decimal n = elim (Bool-cases (ltb n 2147483648)) [
  | inl positive ↦ rw positive (isnum-decimal n true)
  | inr negative ↦ rw negative (
      unfold isnum decimal in
      isnum_loop-starts _ (digits_loop-IsDigits _ _) (digits_loop-starts _ _))
]

digits-IsWord : (s : Text) → IsDigits s → starts_with_digit s ≡ true → IsWord s
digits-IsWord [] h k = cc
digits-IsWord (c ∷ s) h k = (omega arith, solid (c ∷ s) h)
  where
    solid : (s : Text) → IsDigits s → IsSolid s
    solid [] h = tt
    solid (c ∷ s) h = (no_space c h.0, solid s h.1)
      where
        no_space : (c : ℕ) → is_digit c ≡ true → is_space c ≡ false
        no_space c h = ground arith

pub decimal-IsWord : (n : ℕ) → IsWord (decimal n)
unfolding decimal
decimal-IsWord n = digits-IsWord _ (digits_loop-IsDigits n n) (digits_loop-starts n n)

signed_decimal-IsWord : (n : ℕ) → IsWord (signed_decimal n)
signed_decimal-IsWord n = elim (Bool-cases (ltb n 2147483648)) [
  | inl positive ↦ rw positive (decimal-IsWord n)
  | inr negative ↦ rw negative (omega arith, (refl, (decimal-IsWord (4294967296 - n)).1))
]

pub written-IsWord : (a : IntOp) → IsWord (written a)
written-IsWord (true, n) = (omega arith, (refl, (signed_decimal-IsWord n).1))
written-IsWord (false, n) = signed_decimal-IsWord n

pub resolve_register-written :
    (names : List (Text × ℕ)) (a : IntOp) → resolve_register (written a) names ≡ ok (written a)
unfolding resolve_register
resolve_register-written names (true, n) =
    rw (sub-append (64 ∷ []) (signed_decimal n), isnum-signed_decimal n)
      (unfold isnum isnum_loop in refl)
resolve_register-written names (false, n) = rw (isnum-signed_decimal n) refl

-- A register operand.
pub register-written :
    (names : List (Text × ℕ)) (a : IntOp) → a.1 < 4294967296 → register names (written a) ≡ ok a
register-written names a h = rw (resolve_register-written names a, get_int-written a h) refl

space-spaced :
    (w : Text) (ws : List Text) → IsWord w → lstrip (32 ∷ spaced (w ∷ ws)) ≡ spaced (w ∷ ws)
unfolding lstrip
space-spaced w ws h = lstrip-Starts_eq (spaced (w ∷ ws)) (spaced-Starts w ws h)

behind_space : (w : Text) → IsWord w → chunk (32 ∷ w) true ≡ w
unfolding chunk lstrip join
behind_space w h = chunk-spaced w [] h

sub-spaced : (v w : Text) → sub (spaced (v ∷ w ∷ [])) (length v) (End.from_end 0) ≡ 32 ∷ w
unfolding join
sub-spaced v w = sub-append v (32 ∷ w)

pub get2-spaced : (v w : Text) → IsWord v → IsWord w → get2 (spaced (v ∷ w ∷ [])) ≡ (v, w)
unfolding get2
get2-spaced v w h k = rw (chunk-spaced v (w ∷ []) h, sub-spaced v w, behind_space w k) refl

pub get3-spaced :
    (v w u : Text) (fill : Bool)
    → IsWord v
    → IsWord w
    → IsWord u
    → get3 (spaced (v ∷ w ∷ u ∷ [])) fill ≡ (v, w, u)
unfolding get3
get3-spaced v w u fill h k l =
    rw
      (
        without_chunk-spaced v (w ∷ u ∷ []) h (spaced-Starts w (u ∷ []) k),
        without_chunk-spaced w (u ∷ []) k (spaced-Starts u [] l),
        chunk-spaced v (w ∷ u ∷ []) h,
        chunk-spaced w (u ∷ []) k,
        chunk-spaced u [] l,
      )
      (rw (not_empty u l.0) refl)
  where
    not_empty : (s : Text) → 0 < length s → (length (spaced (s ∷ [])) == 0) ≡ false
    not_empty s h = unfold join in ground arith

low_byte : (n : ℕ) → n < 256 → n % 256 ≡ n
low_byte n h = omega arith

pub get_byte-written : (b : ByteOp) → b.1 < 256 → get_byte (written b) ≡ ok b
unfolding get_byte
get_byte-written (true, n) h =
    rw (sub-append (64 ∷ []) (signed_decimal n), stoi-signed_decimal n (omega arith), low_byte n h)
      refl
get_byte-written (false, n) h =
    rw (signed_decimal-unsigned n, stoi-signed_decimal n (omega arith), low_byte n h) refl

pub behind_literal :
    (s w : Text) → IsLiteral s → IsWord w → chunk (without_literal (spaced (s ∷ w ∷ []))) true ≡ w
unfolding without_literal
behind_literal s w k h = rw (extract-literal s (w ∷ []) k) (behind s w h)
  where
    behind :
        (s w : Text) → IsWord w → chunk (lstrip (drop (length s) (spaced (s ∷ w ∷ [])))) true ≡ w
    behind s w h = unfold join in rw (drop-length_append s (32 ∷ w)) (once w h)
      where
        once : (w : Text) → IsWord w → chunk (lstrip (32 ∷ w)) true ≡ w
        once w h = unfold join in rw (space-spaced w [] h) (chunk-spaced w [] h)
