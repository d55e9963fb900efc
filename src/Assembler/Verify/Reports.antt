-- ===== src/Assembler/Verify/Reports.antt =====
-- What empty reports guarantee of the lines.
use viuavm.Common.{
  ap, ◌∙◌, sym, drop, ◌++◌, ◌||◌, Bool-cases, arith, inr, ◌+◌, inl, All, refl, Option-cases, List,
  ◌≡◌, ◌≢◌, ℕ, Text, Option, [], ◌∷◌, none, some, true, codes, ◌=ᵗ◌,
}
use viuavm.Common.Maybe.{◌>>=◌}
use viuavm.Bytecode.Program.Lines.{
  spaced, chunk-spaced, without_chunk-spaced, lstrip-space, spaced-Starts,
}
use viuavm.Text.{join, lstrip, chunk, startswith}
use viuavm.Text.Words.{IsWord, Starts, lstrip-Starts_eq}
use viuavm.Assembler.Verify.{SourceLines, source_line}
use viuavm.Assembler.Verify.Checks.{
  unless_empty, at_line, scan, is_among, undefined, undefined_call, function_calls_are_defined,
}

pub complaint-not_clean :
    (line : Option ℕ) (what : Text) → (line >>= λ n. some (at_line what n ∷ [])) ≢ some []
complaint-not_clean none what e = cc
complaint-not_clean (some n) what e = cc

-- An empty report of a check says that it has nothing against any line.
pub scan-All :
    (check : Text → Option Text) (expanded : SourceLines) (i : ℕ) (lines : List Text)
    → scan check expanded i lines ≡ some []
    → All (λ line. check (lstrip line) ≡ none) lines
unfolding scan
scan-All check expanded i [] e = tt
scan-All check expanded i (line ∷ lines) e = elim (Option-cases (check (lstrip line))) [
  | inl fine ↦ (fine, scan-All check expanded (i + 1) lines (rw (fine, scan) at e))
  | inr (what, wrong) ↦
      absurd (complaint-not_clean (source_line expanded i) what (rw (wrong, scan) at e))
]

pub All-middle :
    (P : Text → Type 0) (before after : List Text) (line : Text)
    → All P (before ++ line ∷ after)
    → P line
All-middle P [] after line h = h.0
All-middle P (l ∷ before) after line h = All-middle P before after line h.1

unless_empty-word : (f other : Text) → IsWord f → unless_empty f other ≡ f
unless_empty-word [] other h = absurd (omega (arith, h.0))
unless_empty-word (c ∷ f) other h = refl

behind_call :
    (rest : List Text) (reg : Text)
    → IsWord reg
    → lstrip (drop 4 (spaced (codes "call" ∷ reg ∷ rest))) ≡ spaced (reg ∷ rest)
behind_call rest reg k =
    unfold join in lstrip-space (spaced (reg ∷ rest)) (spaced-Starts reg rest k)

starts_call :
    (rest : List Text) (reg : Text)
    → startswith (spaced (codes "call" ∷ reg ∷ rest)) (codes "call") ≡ true
unfolding startswith ◌=ᵗ◌ join
starts_call rest reg = refl

call_parts :
    (names signatures : List Text) (reg f : Text)
    → IsWord reg
    → IsWord f
    → undefined_call names signatures (spaced (codes "call" ∷ reg ∷ f ∷ []))
      ≡ undefined names signatures f
unfolding undefined_call
call_parts names signatures reg f k h =
    rw
      (
        starts_call (f ∷ []) reg,
        behind_call (f ∷ []) reg k,
        without_chunk-spaced reg (f ∷ []) k (spaced-Starts f [] h),
        chunk-spaced f [] h,
        unless_empty-word f (chunk (spaced (reg ∷ f ∷ [])) true) h,
      )
      refl

undefined-none :
    (names signatures : List Text) (f : Text)
    → undefined names signatures f ≡ none
    → (is_among f names || is_among f signatures) ≡ true
undefined-none names signatures f e =
    elim (Bool-cases (is_among f names || is_among f signatures)) [
      | inl found ↦ found
      | inr missing ↦ absurd (some_none f (rw missing at e))
    ]
  where
    some_none : (f : Text) → some f ≢ none
    some_none f e = cc

-- Where `functionCallsAreDefined` has nothing against the lines, the function of a line that is a call
-- with a register and a function, both words, is among the function names or the signatures.
pub function_calls_are_defined-call :
    (before after : List Text) (expanded : SourceLines) (names signatures : List Text)
    (reg f : Text)
    → IsWord reg
    → IsWord f
    → function_calls_are_defined
        (before ++ spaced (codes "call" ∷ reg ∷ f ∷ []) ∷ after)
        expanded
        names
        signatures
      ≡ some []
    → (is_among f names || is_among f signatures) ≡ true
unfolding function_calls_are_defined
function_calls_are_defined-call before after expanded names signatures reg f k h e =
    let line = spaced (codes "call" ∷ reg ∷ f ∷ []) in
    let fine =
      All-middle _ before after line
        (scan-All (undefined_call names signatures) expanded 0 (before ++ line ∷ after) e) in
    undefined-none names signatures f (
      sym (call_parts names signatures reg f k h)
      ∙ ap (undefined_call names signatures) (sym (stripped line (unfold join in refl)))
      ∙ fine)
  where
    stripped : (line : Text) → Starts line → lstrip line ≡ line
    stripped line h = lstrip-Starts_eq line h
