-- ===== src/Cpu/Inheritance/Termination.antt =====
-- src/cpu/cpu.cpp: the loop of `inheritanceChainOf`, which lengthens the list that it runs over, ends.
use viuavm.Common.{
  ◌⊎◌, ℕ, zero, suc, ◌+◌, ◌≤◌, ◌<◌, ◌≡◌, refl, sym, ◌∙◌, subst, some, List, [], ◌∷◌, ◌++◌,
  append_assoc, append-nil, Text, All, Option-cases, inl, inr, arith,
}
use viuavm.Common.Throw.{Result, ok, err}
use viuavm.Cpu.Machine.{lookup}
use viuavm.Cpu.Inheritance.{Typesystem, ChainError, chain_loop, chain_of}

Result-cases :
    (r : Result ChainError (List Text))
    → ((out : List Text) × (r ≡ ok out)) ⊎ ((e : ChainError) × (r ≡ err e))
Result-cases (ok out) = inl (out, refl)
Result-cases (err e) = inr (e, refl)

-- An element with its ancestors, once the loops over these and over the rest have ended.
chain_loop-element :
    (types : Typesystem) (n : ℕ) (x : Text) (q ancestors sub out : List Text)
    → lookup x types ≡ some ancestors
    → chain_loop types n ancestors ≡ ok sub
    → chain_loop types n (q ++ sub) ≡ ok out
    → chain_loop types (suc n) (x ∷ q) ≡ ok (x ∷ out)
unfolding chain_loop
chain_loop-element types n x q ancestors sub out found first rest = ground arith

-- One more round changes no chain that has been found.
chain_loop-suc :
    (types : Typesystem) (n : ℕ) (q out : List Text)
    → chain_loop types n q ≡ ok out
    → chain_loop types (suc n) q ≡ ok out
unfolding chain_loop
chain_loop-suc types zero q out h = cc
chain_loop-suc types (suc n) [] out h = h
chain_loop-suc types (suc n) (x ∷ q) out h = elim (Option-cases (lookup x types)) [
  | inl e ↦ absurd (ground (arith, e, h))
  | inr (ancestors, e) ↦ elim (Result-cases (chain_loop types n ancestors)) [
    | inr (y, f) ↦ absurd (ground (arith, e, f, h))
    | inl (sub, f) ↦ elim (Result-cases (chain_loop types n (q ++ sub))) [
      | inr (y, g) ↦ absurd (ground (arith, e, f, g, h))
      | inl (rest, g) ↦
          chain_loop-element types (suc n) x q ancestors sub rest e
            (chain_loop-suc types n ancestors sub f) (chain_loop-suc types n (q ++ sub) rest g)
          ∙ (sym (chain_loop-element types n x q ancestors sub rest e f g) ∙ h)
    ]
  ]
]

pub chain_loop-more :
    (types : Typesystem) (n k : ℕ) (q out : List Text)
    → chain_loop types n q ≡ ok out
    → chain_loop types (n + k) q ≡ ok out
chain_loop-more types n zero q out h = subst (λ i. chain_loop types i q ≡ ok out) (omega arith) h
chain_loop-more types n (suc k) q out h =
    subst (λ i. chain_loop types i q ≡ ok out) (omega arith)
      (chain_loop-suc types (n + k) q out (chain_loop-more types n k q out h))

-- A type of the type system that is below a rank.
pub record Below (types : Typesystem) (rank : Text → ℕ) (r : ℕ) (name : Text) : Type 0 where
  pub ancestors : List Text
  pub is_known : lookup name types ≡ some ancestors
  pub is_below : rank name < r

-- Every type is derived from types of the type system that are below it.
pub record IsWellFounded (types : Typesystem) (rank : Text → ℕ) : Type 0 where
  pub below :
      (name : Text) (ancestors : List Text)
      → lookup name types ≡ some ancestors
      → All (Below types rank (rank name)) ancestors

-- The loop ends on a list of types, with types below a rank.
pub record Ends (types : Typesystem) (rank : Text → ℕ) (r : ℕ) (q : List Text) : Type 0 where
  pub rounds : ℕ
  pub chain : List Text
  pub found : chain_loop types rounds q ≡ ok chain
  pub chain_below : All (Below types rank r) chain

module _ (types : Typesystem) (rank : Text → ℕ) where
  Below-weaken :
      (q : List Text) (r k : ℕ) → r ≤ k → All (Below types rank r) q → All (Below types rank k) q
  Below-weaken [] r k h all = tt
  Below-weaken (x ∷ q) r k h (b, all) = (
    record { ancestors = b.ancestors; is_known = b.is_known; is_below = less b.is_below },
    Below-weaken q r k h all,
  )
    where
      less : rank x < r → rank x < k
      less l = omega arith

  Below-append :
      (q sub : List Text) (r : ℕ)
      → All (Below types rank r) q
      → All (Below types rank r) sub
      → All (Below types rank r) (q ++ sub)
  Below-append [] sub r all more = more
  Below-append (x ∷ q) sub r (b, all) more = (b, Below-append q sub r all more)

  -- An element, with the loop over its ancestors and the loop that goes on.
  Ends-element :
      (r : ℕ) (x : Text) (xs ys : List Text)
      → (b : Below types rank (suc r) x) → (sub : Ends types rank r b.ancestors)
      → Ends types rank (suc r) (xs ++ (ys ++ sub.chain))
      → Ends types rank (suc r) (x ∷ (xs ++ ys))
  Ends-element r x xs ys b sub more = record {
    rounds = suc (sub.rounds + more.rounds);
    chain = x ∷ more.chain;
    found =
        chain_loop-element types (sub.rounds + more.rounds) x (xs ++ ys) b.ancestors sub.chain
          more.chain b.is_known
          (chain_loop-more types sub.rounds more.rounds b.ancestors sub.chain sub.found)
          (rw (append_assoc xs ys sub.chain, plus_comm sub.rounds more.rounds)
            (chain_loop-more types more.rounds sub.rounds _ more.chain more.found));
    chain_below = (b, more.chain_below);
  }
    where
      plus_comm : (m n : ℕ) → m + n ≡ n + m
      plus_comm m n = omega arith

  -- The loop over `xs ++ ys` once it is known to end on types below a lower rank: what the types in
  -- `xs` append is below that rank.
  Ends-step :
      IsWellFounded types rank
      → (r : ℕ) (xs ys : List Text)
      → ((q : List Text) → All (Below types rank r) q → Ends types rank r q)
      → All (Below types rank (suc r)) xs
      → All (Below types rank r) ys
      → Ends types rank (suc r) (xs ++ ys)
  Ends-step w r [] ys lower upper rest =
      let e = lower ys rest in
      record {
        rounds = e.rounds;
        chain = e.chain;
        found = e.found;
        chain_below = Below-weaken e.chain r (suc r) (omega arith) e.chain_below;
      }
  Ends-step w r (x ∷ xs) ys lower (b, upper) rest =
      let known =
        Below-weaken b.ancestors (rank x) r (rank_le b.is_below)
          (w.below x b.ancestors b.is_known) in
      let sub = lower b.ancestors known in
      Ends-element r x xs ys b sub (
        Ends-step w r xs (ys ++ sub.chain) lower upper
          (Below-append ys sub.chain r rest sub.chain_below))
    where
      rank_le : rank x < suc r → rank x ≤ r
      rank_le l = omega arith

  nothing_left : chain_loop types 1 [] ≡ ok []
  unfolding chain_loop
  nothing_left = refl

  Below-Ends :
      IsWellFounded types rank
      → (r : ℕ) (q : List Text) → All (Below types rank r) q
      → Ends types rank r q
  Below-Ends w zero [] all = record {
    rounds = 1;
    chain = [];
    found = nothing_left;
    chain_below = tt;
  }
  Below-Ends w zero (x ∷ q) (b, all) = absurd (omega (arith, b.is_below))
  Below-Ends w (suc r) q all =
      subst (Ends types rank (suc r)) (append-nil q) (Ends-step w r q [] (Below-Ends w r) all tt)

chain_of_lem :
    (types : Typesystem) (rounds : ℕ) (name : Text) (ancestors : List Text)
    → lookup name types ≡ some ancestors
    → chain_of types rounds name ≡ chain_loop types rounds ancestors
unfolding chain_of
chain_of_lem types rounds name ancestors known = ground arith

-- Where every type is derived from types of the type system that a rank puts below it, the chain of a
-- type is found within some number of rounds, and any greater number gives the same chain, of types
-- that are all below it.
pub chain_of-ends :
    (types : Typesystem) (rank : Text → ℕ) (name : Text) (ancestors : List Text)
    → IsWellFounded types rank
    → lookup name types ≡ some ancestors
    → (rounds : ℕ) × ((chain : List Text) × (((k : ℕ) → chain_of types (rounds + k) name ≡ ok chain)
          × All (Below types rank (rank name)) chain))
chain_of-ends types rank name ancestors w known =
    let e = Below-Ends types rank w (rank name) ancestors (w.below name ancestors known) in
    (
      e.rounds,
      (
        e.chain,
        (
          (λ k.
              chain_of_lem types (e.rounds + k) name ancestors known
              ∙ (chain_loop-more types e.rounds k ancestors e.chain e.found)),
          e.chain_below,
        ),
      ),
    )
