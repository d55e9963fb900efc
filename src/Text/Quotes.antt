-- ===== src/Text/Quotes.antt =====
-- `enquote`, `extract` and `strdecode`: string literals in assembly code.
use viuavm.Common.{
  ℕ, ◌≡◌, refl, true, ◌==◌, [], ◌∷◌, ◌++◌, arith, Text, All, Bool-cases, inl, inr, ◌≢◌, ap,
  append_assoc,
}
use viuavm.Text.{extract_loop, extract, escaped, enquote, escape_code, strdecode}
use viuavm.Bytecode.Encode.{drop_last, unquoted}

abbrev pub HasNoBackslash : Text → Type 0
HasNoBackslash = All (λ c. c ≢ 92)

-- The closing quote is the first one that no backslash stands before.
extract_loop-escaped :
    (s rest : Text)
    → HasNoBackslash s
    → extract_loop 34 0 (escaped s ++ 34 ∷ rest) ≡ escaped s ++ 34 ∷ []
unfolding extract_loop escaped
extract_loop-escaped [] rest h = refl
extract_loop-escaped (c ∷ s) rest h = ground (arith, extract_loop-escaped s rest h.1)

-- From code that begins with a quoted text without backslashes `extract` takes that text, whatever
-- follows it.
pub extract-enquote : (s rest : Text) → HasNoBackslash s → extract (enquote s ++ rest) ≡ enquote s
unfolding extract enquote
extract-enquote s rest h =
    ap (λ (t : Text). 34 ∷ t)
      (rw (append_assoc (escaped s) (34 ∷ []) rest) (extract_loop-escaped s rest h))

strdecode-cons : (c : ℕ) (s : Text) → c ≢ 92 → strdecode (c ∷ s) ≡ c ∷ strdecode s
unfolding strdecode
strdecode-cons c [] h = refl
strdecode-cons c (d ∷ s) h = ground arith

strdecode-sequence : (c : ℕ) (s : Text) → strdecode (92 ∷ c ∷ s) ≡ escape_code c ∷ strdecode s
unfolding strdecode
strdecode-sequence c s = refl

escape_code-quote : (c : ℕ) → (c == 34) ≡ true → escape_code c ≡ c
unfolding escape_code
escape_code-quote c h = ground arith

strdecode-escaped : (s : Text) → HasNoBackslash s → strdecode (escaped s) ≡ s
unfolding escaped
strdecode-escaped [] h = unfold strdecode in refl
strdecode-escaped (c ∷ s) h = elim (Bool-cases (c == 34)) [
  | inl quoted ↦ rw quoted (
      rw (strdecode-sequence c (escaped s), strdecode-escaped s h.1, escape_code-quote c quoted)
        refl)
  | inr plain ↦ rw plain (rw (strdecode-cons c (escaped s) h.0, strdecode-escaped s h.1) refl)
]

pub drop_last-snoc : (s : Text) (c : ℕ) → drop_last (s ++ c ∷ []) ≡ s
drop_last-snoc [] c = refl
drop_last-snoc (a ∷ []) c = refl
drop_last-snoc (a ∷ (b ∷ s)) c = ap (λ (t : Text). a ∷ t) (drop_last-snoc (b ∷ s) c)

-- A text without backslashes goes through a literal unchanged: quoted in a line of code, extracted
-- from it, with its quotes dropped as `strstore` does and its escapes decoded.
pub literal_roundtrip :
    (s rest : Text) → HasNoBackslash s → strdecode (unquoted (extract (enquote s ++ rest))) ≡ s
literal_roundtrip s rest h =
    rw (extract-enquote s rest h)
      (unfold enquote in rw (drop_last-snoc (escaped s) 34) (strdecode-escaped s h))

extract_loop-plain :
    (u s : Text) (backs : ℕ)
    → All (λ c. (c ≢ 34) × (c ≢ 92)) u
    → extract_loop 34 backs (u ++ s) ≡ u ++ extract_loop 34 backs s
unfolding extract_loop
extract_loop-plain [] s backs h = refl
extract_loop-plain (c ∷ u) s backs h = ground (arith, extract_loop-plain u s backs h.1)

extract_loop-backslash : (s : Text) → extract_loop 34 0 (92 ∷ s) ≡ 92 ∷ extract_loop 34 1 s
unfolding extract_loop
extract_loop-backslash s = refl

extract_loop-protected : (s : Text) → extract_loop 34 1 (34 ∷ s) ≡ 34 ∷ extract_loop 34 0 s
unfolding extract_loop
extract_loop-protected s = refl

-- A backslash still protects the next quote when other characters stand between them: the literal
-- does not end at that quote, and `extract` runs on into the code behind it.
pub extract_runs_on :
    (u v rest : Text)
    → All (λ c. (c ≢ 34) × (c ≢ 92)) u
    → All (λ c. (c ≢ 34) × (c ≢ 92)) v
    → extract (34 ∷ (u ++ 92 ∷ (v ++ 34 ∷ rest)))
      ≡ 34 ∷ (u ++ 92 ∷ (v ++ 34 ∷ extract_loop 34 0 rest))
unfolding extract
extract_runs_on u v rest h k =
    ap (λ (t : Text). 34 ∷ t)
      (rw
        (
          extract_loop-plain u (92 ∷ (v ++ 34 ∷ rest)) 0 h,
          extract_loop-backslash (v ++ 34 ∷ rest),
          extract_loop-plain v (34 ∷ rest) 1 k,
          extract_loop-protected rest,
        )
        refl)
