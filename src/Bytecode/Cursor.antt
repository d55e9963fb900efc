-- ===== src/Bytecode/Cursor.antt =====
-- The buffer that the assembler fills, with `addr_ptr` somewhere in it. Writing or moving past its
-- end is a fault: in the program it would be a write outside of the allocated array.
use viuavm.Common.{
  ℕ, zero, suc, ◌/◌, ◌%◌, ◌≤◌, ◌<◌, ◌≡◌, refl, ◌∙◌, sym, Bool, true, false, Option, none, some,
  List, [], ◌∷◌, ◌++◌, append_assoc, append-nil, arith, length, drop, Text,
}
use viuavm.Common.Maybe.{◌>>=◌, >>=_ext, >>=_assoc, >>=_some}

-- The bytes before `addr_ptr`, and those from it to the end of the array.
pub record Cursor : Type 0 where
  pub before : List ℕ
  pub after : List ℕ

-- `*(addr_ptr++) = b`
unfoldable pub put : Cursor → ℕ → Option Cursor
put p b = elim p.after [
  | [] ↦ none
  | x ∷ rest ↦ some (record { before = p.before ++ b ∷ []; after = rest })
]

-- The bytes `bs`, one after the other.
unfoldable pub write : Cursor → List ℕ → Option Cursor
write p [] = some p
write p (b ∷ bs) = put p b >>= λ q. write q bs

-- A little-endian `int`, given by its bit pattern.
unfoldable pub int_bytes : ℕ → List ℕ
int_bytes n = n % 256 ∷ n / 256 % 256 ∷ n / 65536 % 256 ∷ n / 16777216 % 256 ∷ []

unfoldable pub bool_byte : Bool → ℕ
bool_byte true = 1
bool_byte false = 0

-- `*((int*)addr_ptr) = n; pointer::inc<int, byte>(addr_ptr)`
unfoldable pub put_int : Cursor → ℕ → Option Cursor
put_int p n = do
  p₁ ← put p (n % 256)
  p₂ ← put p₁ (n / 256 % 256)
  p₃ ← put p₂ (n / 65536 % 256)
  put p₃ (n / 16777216 % 256)

-- `*((bool*)addr_ptr) = b; pointer::inc<bool, byte>(addr_ptr)`
unfoldable pub put_bool : Cursor → Bool → Option Cursor
put_bool p b = put p (bool_byte b)

-- `for (i = 0; i < s.size(); ++i) { *(addr_ptr++) = s[i]; }`
unfoldable pub put_chars : Cursor → Text → Option Cursor
put_chars p [] = some p
put_chars p (c ∷ s) = put p c >>= λ q. put_chars q s

-- `pointer::inc<int, byte>(addr_ptr)` with nothing written.
unfoldable pub skip : Cursor → ℕ → Option Cursor
skip p zero = some p
skip p (suc n) = elim p.after [
  | [] ↦ none
  | x ∷ rest ↦ skip (record { before = p.before ++ x ∷ []; after = rest }) n
]

pub write-append :
    (p : Cursor) (xs ys : List ℕ) → write p (xs ++ ys) ≡ (write p xs >>= λ q. write q ys)
unfolding write
write-append p [] ys = refl
write-append p (b ∷ xs) ys =
    >>=_ext (put p b) _ _ (λ q. write-append q xs ys)
    ∙ sym (>>=_assoc (put p b) (λ q. write q xs) (λ q. write q ys))

pub put_int-write : (p : Cursor) (n : ℕ) → put_int p n ≡ write p (int_bytes n)
unfolding put_int write int_bytes
put_int-write p n = >>=_ext (put p (n % 256)) _ _ λ p₁.
    >>=_ext (put p₁ (n / 256 % 256)) _ _ λ p₂.
      >>=_ext (put p₂ (n / 65536 % 256)) _ _ λ p₃. sym (>>=_some (put p₃ (n / 16777216 % 256)))

pub put_chars-write : (p : Cursor) (s : Text) → put_chars p s ≡ write p s
unfolding put_chars write
put_chars-write p [] = refl
put_chars-write p (c ∷ s) = >>=_ext (put p c) _ _ (λ q. put_chars-write q s)

write_at :
    (us vs bs : List ℕ)
    → length bs ≤ length vs
    → write (record { before = us; after = vs }) bs
      ≡ some (record { before = us ++ bs; after = drop (length bs) vs })
unfolding write put
write_at us vs [] h = rw append-nil refl
write_at us [] (b ∷ bs) h = absurd (omega arith)
write_at us (v ∷ vs) (b ∷ bs) h = write_at (us ++ b ∷ []) vs bs (omega arith) ∙ rw append_assoc refl

-- Enough room is all that writing takes, and exactly the bytes after `addr_ptr` are replaced.
pub write_lem :
    (p : Cursor) (bs : List ℕ)
    → length bs ≤ length p.after
    → write p bs ≡ some (record { before = p.before ++ bs; after = drop (length bs) p.after })
write_lem p bs h = write_at p.before p.after bs h

write_full_at :
    (us vs bs : List ℕ)
    → length vs < length bs
    → write (record { before = us; after = vs }) bs ≡ none
unfolding write put
write_full_at us vs [] h = absurd (omega arith)
write_full_at us [] (b ∷ bs) h = refl
write_full_at us (v ∷ vs) (b ∷ bs) h = write_full_at (us ++ b ∷ []) vs bs (omega arith)

pub write_full : (p : Cursor) (bs : List ℕ) → length p.after < length bs → write p bs ≡ none
write_full p bs h = write_full_at p.before p.after bs h
