-- ===== src/Cpu/RegisterSet/Invariant.antt =====
-- What every operation of a register set keeps.
use viuavm.Common.{
  refl, ◌∷◌, inr, some, inl, ap, ◌∙◌, [], ltb, ◌==◌, sym, Bool-cases, subst, Option, ◌≢◌, none, ◌≡◌,
  List, Bool, ℕ,
}
use viuavm.Common.Throw.{ok, err}
use viuavm.Cpu.RegisterSet.{
  deletes, RegisterError, Mask, Thrown, mask, Effect, Pointer, register, RegisterSet,
}
use viuavm.Cpu.RegisterSet.Operations.{
  place_object, contents, viewed, present, bounded, update, apply-promised, setmasks, unflags,
  flags, clears, frees, empties, swaps, moves, promised, sets, IsValid, Contents, apply, Operation,
}

-- An empty register has no flags.
abbrev pub NoFlags : Option Pointer × Mask → Type 0
NoFlags v = v.0 ≡ none → v.1 ≡ 0

abbrev Clean : Contents → Type 0
Clean c = (j : ℕ) → NoFlags (c j)

abbrev pub IsClean : RegisterSet → Type 0
IsClean rs = (j : ℕ) → register rs j ≡ none → mask rs j ≡ 0

-- `set` is not called with a null pointer.
abbrev pub StoresObject : Operation → Type 0
StoresObject (sets i object) = object ≢ none
StoresObject _ = Unit

abbrev CleanResult : Thrown (Contents × List Effect) → Type 0
CleanResult (ok (c, effects)) = Clean c
CleanResult (err e) = Unit

update-Clean :
    (c : Contents) (i : ℕ) (v : Option Pointer × Mask) → Clean c → NoFlags v → Clean (update c i v)
update-Clean c i v h k j = elim (Bool-cases (i == j)) [
  | inl same ↦ rw same k
  | inr other ↦ rw other (h j)
]

bounded-Clean :
    (n i : ℕ) (r : Thrown (Contents × List Effect)) → CleanResult r → CleanResult (bounded n i r)
bounded-Clean n i r h = elim (Bool-cases (ltb i n)) [
  | inl inside ↦ rw inside h
  | inr outside ↦ rw outside tt
]

-- A mask that is set on an object.
present-Clean :
    (c : Contents) (i : ℕ) (m : Mask) (p : Option Pointer) (e : RegisterError)
    → Clean c
    → p ≡ (c i).0
    → CleanResult (present p e λ q. ok (update c i ((c i).0, m), []))
present-Clean c i m none e h same = tt
present-Clean c i m (some q) e h same = update-Clean c i _ h (λ z. cc)

freed-Clean :
    (c : Contents) (i : ℕ) (p : Option Pointer)
    → Clean c
    → CleanResult
        (present p RegisterError.invalid_free λ q. ok (update c i (none, 0), deletes q ∷ []))
freed-Clean c i none h = tt
freed-Clean c i (some q) h = update-Clean c i _ h (λ z. refl)

place-Clean :
    (r : Pointer → Bool) (c : Contents) (i : ℕ) (object old : Option Pointer)
    → Clean c
    → object ≢ none
    → CleanResult (ok (place_object r c i object old))
place-Clean r c i object none h w = update-Clean c i _ h (λ z. absurd (w z))
place-Clean r c i object (some old) h w = elim (Bool-cases (r old)) [
  | inl reference ↦ rw reference h
  | inr plain ↦ rw plain (update-Clean c i (object, (c i).1) h (λ z. absurd (w z)))
]

promised-Clean :
    (r : Pointer → Bool) (n : ℕ) (c : Contents) (op : Operation)
    → Clean c
    → StoresObject op
    → CleanResult (promised r n c op)
promised-Clean r n c (sets i object) h w =
    bounded-Clean n i _ (place-Clean r c i object (c i).0 h w)
promised-Clean r n c (moves s d) h w =
    bounded-Clean n s _
      (bounded-Clean n d _ (update-Clean _ s _ (update-Clean c d _ h (h s)) (λ z. refl)))
promised-Clean r n c (swaps s d) h w =
    bounded-Clean n s _
      (bounded-Clean n d _ (update-Clean _ d _ (update-Clean c s _ h (h d)) (h s)))
promised-Clean r n c (empties i) h w = bounded-Clean n i _ (update-Clean c i _ h (λ z. refl))
promised-Clean r n c (frees i) h w = bounded-Clean n i _ (freed-Clean c i (c i).0 h)
promised-Clean r n c (clears i) h w = bounded-Clean n i _ (update-Clean c i _ h (λ z. refl))
promised-Clean r n c (flags i f) h w = bounded-Clean n i _ (present-Clean c i _ (c i).0 _ h refl)
promised-Clean r n c (unflags i f) h w = bounded-Clean n i _ (present-Clean c i _ (c i).0 _ h refl)
promised-Clean r n c (setmasks i m) h w = bounded-Clean n i _ (present-Clean c i _ (c i).0 _ h refl)

-- In a valid register set whose empty registers have no flags, an operation that succeeds, and stores
-- no null pointer by `set`, leaves no empty register with flags.
pub apply-IsClean :
    (is_reference : Pointer → Bool) (rs rs' : RegisterSet) (op : Operation) (effects : List Effect)
    → IsValid rs
    → IsClean rs
    → StoresObject op
    → apply is_reference rs op ≡ ok (rs', effects)
    → IsClean rs'
apply-IsClean r rs rs' op effects v h w e =
    let promise = apply-promised r rs op v in
    subst CleanResult (sym promise ∙ ap viewed e)
      (promised-Clean r rs.registerset_size (contents rs) op h w)
