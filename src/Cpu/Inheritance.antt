-- ===== src/Cpu/Inheritance.antt =====
-- src/cpu/cpu.cpp: `inheritanceChainOf`, the types that a type is derived from.
pub mod Termination
use viuavm.Common.{
  ℕ, zero, suc, ◌==◌, not, Bool, true, false, if◌then◌else◌, Option, none, some, List, [], ◌∷◌,
  ◌++◌, Text, ◌=ᵗ◌,
}
use viuavm.Common.Throw.{Result, ok, err}
use viuavm.Cpu.Machine.{Exec, Stop, ◌>>=◌, pure, read, stop, lookup}

abbrev pub Typesystem : Type 0
Typesystem = List (Text × List Text)

-- A type that is not in the type system is `std::out_of_range`; a recursion that does not end
-- overflows the stack.
pub data ChainError : Type 0 where
  unknown_type unfinished : ChainError

-- The loop over `ichain`, which the chains of its elements are appended to while it runs. The chain
-- of an element is the same loop over its ancestors.
unfoldable pub chain_loop : Typesystem → ℕ → List Text → Result ChainError (List Text)
chain_loop types zero ichain = err ChainError.unfinished
chain_loop types (suc rounds) [] = ok []
chain_loop types (suc rounds) (element ∷ ichain) = elim (lookup element types) [
  | none ↦ err ChainError.unknown_type
  | some ancestors ↦ elim (chain_loop types rounds ancestors) [
    | err e ↦ err e
    | ok sub_ichain ↦ elim (chain_loop types rounds (ichain ++ sub_ichain)) [
      | err e ↦ err e
      | ok chain ↦ ok (element ∷ chain)
    ]
  ]
]

unfoldable pub chain_of : Typesystem → ℕ → Text → Result ChainError (List Text)
chain_of types rounds type_name = elim (lookup type_name types) [
  | none ↦ err ChainError.unknown_type
  | some ancestors ↦ chain_loop types rounds ancestors
]

-- `remove` and `erase` of an element.
unfoldable pub erase : Text → List Text → List Text
erase name [] = []
erase name (x ∷ xs) = let rest = erase name xs in if x =ᵗ name then rest else x ∷ rest

unfoldable pub member : Text → List Text → Bool
member name [] = false
member name (x ∷ xs) = let rest = member name xs in if x =ᵗ name then true else rest

-- The loop that linearises the chain; its result is not used.
unfoldable pub linearise : List Text → List Text → List Text → List Text
linearise linearised pushed [] = linearised
linearise linearised pushed (element ∷ ichain) =
    if member element pushed
    then linearise (erase element linearised ++ element ∷ []) pushed ichain
    else linearise (linearised ++ element ∷ []) (element ∷ pushed) ichain

-- The rounds that are enough for the chains that are looked for.
unfoldable pub chain_rounds : ℕ
chain_rounds = 65536

unfoldable pub finished : Result ChainError (List Text) → Exec (List Text)
finished (ok chain) = pure chain
finished (err ChainError.unknown_type) = stop Stop.escapes
finished (err ChainError.unfinished) = stop Stop.undefined

-- `CPU::inheritanceChainOf`
unfoldable pub inheritance_chain_of : Text → Exec (List Text)
inheritance_chain_of type_name = do
  s ← read
  finished (chain_of s.typesystem chain_rounds type_name)
