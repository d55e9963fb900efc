-- ===== src/Bytecode/Program/Lines.antt =====
-- The words of a line of code, as `countBytes` takes them off.
use viuavm.Common.{
  drop-length_append, length-append, sym, ◌+◌, append-nil, ℕ, length, ◌++◌, ◌==◌, ◌&&◌, not, refl,
  false, true, Bool, arith, some, ◌<◌, ◌≡◌, Text, List, codes, ◌=ᵗ◌, if◌then◌else◌, [], ◌∷◌,
}
use viuavm.Bytecode.Opcode.{Opcode}
use viuavm.Bytecode.Tables.{op_name, op_size}
use viuavm.Bytecode.Program.Count.{
  find_opcode, instruction_to_opcode, without_chunk, without_literal, chunk_bytes, plus_literal,
  callee_bytes, is_directive,
}
use viuavm.Text.{escaped, is_space, join, chunk, lstrip, extract, enquote}
use viuavm.Text.Words.{
  chunk_from-append, chunk_from-word, drop-length_self, lstrip-Starts_eq, IsWord, Starts, IsSolid,
}
use viuavm.Text.Quotes.{drop_last-snoc, HasNoBackslash, extract-enquote}
use viuavm.Bytecode.Encode.{unquoted}

-- Words, or literals, with a space between them.
abbrev pub spaced : List Text → Text
spaced = join (32 ∷ [])

unfoldable pub mnemonic : Opcode → Text
mnemonic op = codes (op_name op)

pub instruction_to_opcode-mnemonic : (op : Opcode) → instruction_to_opcode (mnemonic op) ≡ some op
unfolding instruction_to_opcode find_opcode mnemonic op_name ◌=ᵗ◌
instruction_to_opcode-mnemonic Opcode.nop = refl
instruction_to_opcode-mnemonic _ = refl

pub op_size-positive : (op : Opcode) → 0 < op_size op
unfolding op_size
op_size-positive Opcode.nop = omega arith
op_size-positive _ = omega arith

-- What the proofs need of the characters of a mnemonic.
abbrev pub is_solid : Text → Bool
is_solid [] = true
is_solid (c ∷ s) = not (is_space c) && is_solid s

abbrev pub is_mnemonic : Text → Bool
is_mnemonic [] = false
is_mnemonic (c ∷ s) = not (c == 46) && is_solid (c ∷ s)

pub mnemonic-is_mnemonic : (op : Opcode) → is_mnemonic (mnemonic op) ≡ true
unfolding mnemonic op_name
mnemonic-is_mnemonic Opcode.nop = refl
mnemonic-is_mnemonic _ = refl

IsSolid-is_solid : (s : Text) → is_solid s ≡ true → IsSolid s
IsSolid-is_solid [] h = tt
IsSolid-is_solid (c ∷ s) h = ground (arith, IsSolid-is_solid s)

pub mnemonic-IsWord : (w : Text) → is_mnemonic w ≡ true → IsWord w
mnemonic-IsWord [] h = cc
mnemonic-IsWord (c ∷ s) h = ground (arith, IsSolid-is_solid s)

-- The first chunk of words, and what is behind it.
pub chunk-spaced : (w : Text) (ws : List Text) → IsWord w → chunk (spaced (w ∷ ws)) true ≡ w
unfolding chunk join
chunk-spaced [] ws h = absurd (omega (arith, h.0))
chunk-spaced (c ∷ w) [] h = rw (lstrip-Starts_eq (c ∷ w) h.1.0) (chunk_from-word (c ∷ w) h.1)
chunk-spaced (c ∷ w) (v ∷ ws) h =
    rw (lstrip-Starts_eq (c ∷ (w ++ 32 ∷ spaced (v ∷ ws))) h.1.0)
      (chunk_from-append (c ∷ w) (spaced (v ∷ ws)) h.1)

pub lstrip-space : (s : Text) → Starts s → lstrip (32 ∷ s) ≡ s
lstrip-space s h = unfold lstrip in lstrip-Starts_eq s h

pub without_chunk-spaced :
    (w : Text) (ws : List Text)
    → IsWord w
    → Starts (spaced ws)
    → without_chunk (spaced (w ∷ ws)) ≡ spaced ws
unfolding without_chunk
without_chunk-spaced w [] h k =
    rw (chunk-spaced w [] h) (unfold join in rw (drop-length_self w) (unfold lstrip in refl))
without_chunk-spaced w (v ∷ ws) h k =
    rw (chunk-spaced w (v ∷ ws) h)
      (unfold join in rw (drop-length_append w (32 ∷ spaced (v ∷ ws))) (lstrip-space _ k))

-- A quoted text without backslashes.
abbrev pub IsLiteral : Text → Type 0
IsLiteral s = (t : Text) × HasNoBackslash t × (s ≡ enquote t)

pub spaced_one : (w : Text) → spaced (w ∷ []) ≡ w
unfolding join
spaced_one w = refl

pub spaced-Starts : (w : Text) (ws : List Text) → IsWord w → Starts (spaced (w ∷ ws))
unfolding join
spaced-Starts [] ws h = absurd (omega (arith, h.0))
spaced-Starts (c ∷ w) [] h = h.1.0
spaced-Starts (c ∷ w) (v ∷ ws) h = h.1.0

-- What is counted for one word, for the word behind another one, and for the two behind one.
pub one_word : (w : Text) → IsWord w → chunk_bytes (spaced (w ∷ [])) ≡ length w + 1
unfolding chunk_bytes
one_word w h = rw (chunk-spaced w [] h) refl

pub second_word :
    (r w : Text) (ws : List Text)
    → IsWord r
    → IsWord w
    → chunk_bytes (without_chunk (spaced (r ∷ w ∷ ws))) ≡ length w + 1
unfolding chunk_bytes
second_word r w ws k h =
    rw (without_chunk-spaced r (w ∷ ws) k (spaced-Starts w ws h), chunk-spaced w ws h) refl

pub third_word :
    (r w v : Text)
    → IsWord r
    → IsWord w
    → IsWord v
    → chunk_bytes (without_chunk (without_chunk (spaced (r ∷ w ∷ v ∷ [])))) ≡ length v + 1
third_word r w v k h l =
    rw (without_chunk-spaced r (w ∷ v ∷ []) k (spaced-Starts w (v ∷ []) h)) (second_word w v [] h l)

pub callee_choice : (n m : ℕ) → 0 < n → (if n == 0 then m else n) + 1 ≡ n + 1
callee_choice n m h = ground arith

pub callee_word :
    (r w : Text) → IsWord r → IsWord w → callee_bytes (spaced (r ∷ w ∷ [])) ≡ length w + 1
unfolding callee_bytes
callee_word r w k h =
    rw (without_chunk-spaced r (w ∷ []) k (spaced-Starts w [] h), chunk-spaced w [] h)
      (callee_choice (length w) _ h.0)

-- A literal at the front of a line, and the word behind it.
pub extract-literal : (s : Text) (ws : List Text) → IsLiteral s → extract (spaced (s ∷ ws)) ≡ s
extract-literal s [] (t, h, e) =
    rw (e, spaced_one (enquote t), ← append-nil (enquote t))
      (rw (extract-enquote t [] h) (sym (append-nil (enquote t))))
extract-literal s (w ∷ ws) (t, h, e) =
    rw (e) (unfold join in extract-enquote t (32 ∷ spaced (w ∷ ws)) h)

pub length-unquoted : (s : Text) → IsLiteral s → length s ≡ length (unquoted s) + 2
length-unquoted s (t, h, e) = rw (e) (
    unfold enquote in
    rw (drop_last-snoc (escaped t) 34) (omega (arith, length-append (escaped t) (34 ∷ []))))

pub literal_counted :
    (inc : ℕ) (s : Text) (ws : List Text)
    → IsLiteral s
    → plus_literal inc (spaced (s ∷ ws)) ≡ inc + (length (unquoted s) + 1)
unfolding plus_literal
literal_counted inc s ws h = rw (extract-literal s ws h) (omega (arith, length-unquoted s h))

pub literal-Starts : (s : Text) (ws : List Text) → IsLiteral s → Starts (spaced (s ∷ ws))
literal-Starts s [] (t, h, e) = rw e (unfold join enquote in refl)
literal-Starts s (w ∷ ws) (t, h, e) = rw e (unfold join enquote in refl)

pub word_behind_literal :
    (s w : Text)
    → IsLiteral s
    → IsWord w
    → chunk_bytes (without_literal (spaced (s ∷ w ∷ []))) ≡ length w + 1
unfolding without_literal
word_behind_literal s w k h = rw (extract-literal s (w ∷ []) k) (
    unfold join in
    rw (drop-length_append s (32 ∷ w), lstrip-space w (spaced-Starts w [] h)) (one_word w h))

pub no_directive :
    (w : Text) (ws : List Text) → is_mnemonic w ≡ true → is_directive (spaced (w ∷ ws)) ≡ false
unfolding join
no_directive [] ws h = cc
no_directive (c ∷ w) [] h = ground arith
no_directive (c ∷ w) (v ∷ ws) h = ground arith
