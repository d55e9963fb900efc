-- ===== src/Common/Chars.antt =====
-- std::string as the list of its character codes, and tests for equality.
use Prim.Native.Char.{code}
use Prim.Native.String.{String}
use Prim.Native.Nat.{ℕ}
use mathlib.Core.Path.{◌≡◌, refl}
use mathlib.Core.Bool.{Bool, true, false, ◌&&◌}
use mathlib.Core.List.{List, [], ◌∷◌}
use native.Mathlib.Omega.{arith}
use viuavm.Common.Tests.{◌==◌}

abbrev pub Text : Type 0
Text = List ℕ

-- The character codes of a literal.
abbrev pub codes : String → Text
codes String.[] = []
codes (String.◌∷◌ c s) = code c ∷ codes s

-- `s == w`
infix 50 ◌=ᵗ◌
unfoldable pub ◌=ᵗ◌ : Text → Text → Bool
[] =ᵗ [] = true
[] =ᵗ (d ∷ w) = false
(c ∷ s) =ᵗ [] = false
(c ∷ s) =ᵗ (d ∷ w) = c == d && s =ᵗ w

pub =ᵗ-refl : (s : Text) → (s =ᵗ s) ≡ true
unfolding ◌=ᵗ◌
=ᵗ-refl [] = refl
=ᵗ-refl (c ∷ s) = ground (arith, =ᵗ-refl s)

pub =ᵗ-eq : (s w : Text) → (s =ᵗ w) ≡ true → s ≡ w
unfolding ◌=ᵗ◌
=ᵗ-eq [] [] h = refl
=ᵗ-eq [] (d ∷ w) h = cc
=ᵗ-eq (c ∷ s) [] h = cc
=ᵗ-eq (c ∷ s) (d ∷ w) h = ground (arith, =ᵗ-eq s w)

-- A predicate of every element.
abbrev pub All {ℓ κ} : {A : Type ℓ} → (A → Type κ) → List A → Type κ
All P [] = Unit
All P (x ∷ xs) = P x × All P xs
