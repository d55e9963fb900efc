-- ===== src/Assembler/Verify/Ress.antt =====
-- `ressInstructions`, and what it guarantees for the encoder of `ress`.
use viuavm.Common.{
  =ᵗ-eq, ◌⊎◌, Bool, ap, ◌∙◌, sym, ◌++◌, Bool-cases, arith, inr, ◌+◌, inl, All, refl, Option-cases,
  List, ◌≡◌, ◌≢◌, ℕ, Text, [], ◌∷◌, none, some, true, false, codes, ◌=ᵗ◌,
}
use viuavm.Bytecode.Instruction.Layout.{ress_id}
use viuavm.Bytecode.Program.Lines.{spaced, chunk-spaced, without_chunk-spaced, spaced-Starts}
use viuavm.Text.{join, lstrip, startswith}
use viuavm.Text.Words.{IsWord, lstrip-Starts_eq}
use viuavm.Assembler.Verify.{SourceLines, source_line}
use viuavm.Assembler.Verify.Checks.{
  is_among, illegal_ress, ress_loop, ress_instructions, legal_register_sets,
}
use viuavm.Assembler.Verify.Reports.{complaint-not_clean, All-middle}

-- A line that names the function, or that is no illegal `ress` in some function.
abbrev IsLegal : Bool → Text → Type 0
IsLegal as_lib line =
    (startswith line (codes ".function:") ≡ true)
    ⊎ ((f : Text) × (illegal_ress as_lib f line ≡ none))

ress_loop-All :
    (as_lib : Bool) (expanded : SourceLines) (i : ℕ) (function : Text) (lines : List Text)
    → ress_loop as_lib expanded i function lines ≡ some []
    → All (λ line. IsLegal as_lib (lstrip line)) lines
unfolding ress_loop
ress_loop-All as_lib expanded i function [] e = tt
ress_loop-All as_lib expanded i function (line ∷ lines) e =
    elim (Bool-cases (startswith (lstrip line) (codes ".function:"))) [
      | inl named ↦
          (inl named, ress_loop-All as_lib expanded (i + 1) _ lines (rw (named, ress_loop) at e))
      | inr code ↦ elim (Option-cases (illegal_ress as_lib function (lstrip line))) [
        | inl fine ↦ (
          inr (function, fine),
          ress_loop-All as_lib expanded (i + 1) function lines (rw (code, fine, ress_loop) at e),
        )
        | inr (what, wrong) ↦
            absurd
              (complaint-not_clean (source_line expanded i) what (rw (code, wrong, ress_loop) at e))
      ]
    ]

starts_ress : (name : Text) → startswith (spaced (codes "ress" ∷ name ∷ [])) (codes "ress") ≡ true
unfolding startswith ◌=ᵗ◌ join
starts_ress name = refl

no_function :
    (name : Text) → startswith (spaced (codes "ress" ∷ name ∷ [])) (codes ".function:") ≢ true
unfolding startswith ◌=ᵗ◌ join
no_function name z = cc

illegal-some :
    (as_lib : Bool) (f name : Text)
    → IsWord name
    → is_among name legal_register_sets ≡ false
    → illegal_ress as_lib f (spaced (codes "ress" ∷ name ∷ [])) ≡ some name
unfolding illegal_ress
illegal-some as_lib f name h missing =
    rw
      (
        starts_ress name,
        without_chunk-spaced (codes "ress") (name ∷ [])
            (omega arith, (refl, (refl, (refl, (refl, tt))))) (spaced-Starts name [] h),
        chunk-spaced name [] h,
        missing,
      )
      refl

illegal-legal :
    (as_lib : Bool) (f name : Text)
    → IsWord name
    → illegal_ress as_lib f (spaced (codes "ress" ∷ name ∷ [])) ≡ none
    → is_among name legal_register_sets ≡ true
illegal-legal as_lib f name h e = elim (Bool-cases (is_among name legal_register_sets)) [
  | inl legal ↦ legal
  | inr missing ↦ absurd (none_some name (sym e ∙ illegal-some as_lib f name h missing))
]
  where
    none_some : (s : Text) → none ≢ some s
    none_some s z = cc

same_ress_id :
    (w name : Text) (n : ℕ)
    → ress_id w ≡ some n
    → (w =ᵗ name) ≡ true
    → (k : ℕ) × (ress_id name ≡ some k)
same_ress_id w name n e same = (n, ap ress_id (sym (=ᵗ-eq w name same)) ∙ e)

ress_id-legal :
    (name : Text) → is_among name legal_register_sets ≡ true → (n : ℕ) × (ress_id name ≡ some n)
unfolding is_among ress_id ◌=ᵗ◌
ress_id-legal name h = elim (Bool-cases (codes "global" =ᵗ name)) [
  | inl same ↦ same_ress_id (codes "global") name 0 refl same
  | inr not_global ↦ elim (Bool-cases (codes "local" =ᵗ name)) [
    | inl same ↦ same_ress_id (codes "local") name 1 refl same
    | inr not_local ↦ elim (Bool-cases (codes "static" =ᵗ name)) [
      | inl same ↦ same_ress_id (codes "static") name 2 refl same
      | inr not_static ↦ elim (Bool-cases (codes "temp" =ᵗ name)) [
        | inl same ↦ same_ress_id (codes "temp") name 3 refl same
        | inr not_temp ↦ absurd (false_true (rw (not_global, not_local, not_static, not_temp) at h))
      ]
    ]
  ]
]
  where
    false_true : false ≢ true
    false_true z = cc

-- Where `ressInstructions` has nothing against the lines, a line that is `ress` and a word names a
-- register set that the encoder of `ress` knows.
pub ress_instructions-ress_id :
    (before after : List Text) (expanded : SourceLines) (as_lib : Bool) (name : Text)
    → IsWord name
    → ress_instructions (before ++ spaced (codes "ress" ∷ name ∷ []) ∷ after) expanded as_lib
      ≡ some []
    → (n : ℕ) × (ress_id name ≡ some n)
unfolding ress_instructions
ress_instructions-ress_id before after expanded as_lib name h e =
    let line = spaced (codes "ress" ∷ name ∷ []) in
    let stripped : lstrip line ≡ line = lstrip-Starts_eq line (unfold join in refl) in
    elim (All-middle (λ l. IsLegal as_lib (lstrip l)) before after line
      (ress_loop-All as_lib expanded 0 [] (before ++ line ∷ after) e)) [
        | inl named ↦
            absurd (
              no_function name (ap (λ l. startswith l (codes ".function:")) (sym stripped) ∙ named))
        | inr (f, fine) ↦
            ress_id-legal name
              (illegal-legal as_lib f name h (ap (illegal_ress as_lib f) (sym stripped) ∙ fine))
      ]
