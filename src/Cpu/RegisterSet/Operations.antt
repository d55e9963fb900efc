-- ===== src/Cpu/RegisterSet/Operations.antt =====
-- The operations of a register set against a map from indices to pointers and masks.
use mathlib.Core.Path.{fun_ext}
use viuavm.Common.{
  ℕ, ◌<◌, ◌≡◌, refl, Bool, Option, none, some, List, [], ◌∷◌, arith, length, length-set, get_or-set,
  ltb, ◌==◌, if◌then◌else◌, bit_or, bit_xor, set as put_at, Bool-cases, inl, inr,
}
use viuavm.Common.Throw.{ok, err}
use viuavm.Cpu.RegisterSet.{
  Pointer, Mask, RegisterSet, RegisterError, Effect, deletes, rebinds, Thrown, register, mask,
  with_register, with_mask, move, swap, empty, free, flag, unflag, clear, setmask, set,
}

-- The mutating calls of one register or two.
pub data Operation : Type 0 where
  sets : ℕ → Option Pointer → Operation
  moves swaps : ℕ → ℕ → Operation
  empties frees clears : ℕ → Operation
  flags unflags setmasks : ℕ → Mask → Operation

abbrev silent : Thrown RegisterSet → Thrown (RegisterSet × List Effect)
silent (ok rs) = ok (rs, [])
silent (err e) = err e

module _ (is_reference : Pointer → Bool) where
  unfoldable pub apply : RegisterSet → Operation → Thrown (RegisterSet × List Effect)
  apply rs (sets i object) = set is_reference rs i object
  apply rs (moves src dst) = silent (move rs src dst)
  apply rs (swaps src dst) = silent (swap rs src dst)
  apply rs (empties here) = silent (empty rs here)
  apply rs (frees here) = free rs here
  apply rs (clears i) = silent (clear rs i)
  apply rs (flags i filter) = silent (flag rs i filter)
  apply rs (unflags i filter) = silent (unflag rs i filter)
  apply rs (setmasks i m) = silent (setmask rs i m)

pub record IsValid (rs : RegisterSet) : Type 0 where
  pub registers_sized : length rs.registers ≡ rs.registerset_size
  pub masks_sized : length rs.masks ≡ rs.registerset_size

-- The abstract view: what is in each register, and its mask.
abbrev pub Contents : Type 0
Contents = ℕ → Option Pointer × Mask

abbrev pub contents : RegisterSet → Contents
contents rs j = (register rs j, mask rs j)

abbrev pub update : Contents → ℕ → Option Pointer × Mask → Contents
update c i v j = if i == j then v else c j

abbrev pub bounded {ℓ} : {A : Type ℓ} → ℕ → ℕ → Thrown A → Thrown A
bounded size i r = if ltb i size then r else err RegisterError.out_of_bounds

abbrev pub present {ℓ} :
    {A : Type ℓ} → Option Pointer → RegisterError → (Pointer → Thrown A) → Thrown A
present none e k = err e
present (some p) e k = k p

-- What the operations promise, over the abstract view.
module _ (is_reference : Pointer → Bool) where
  abbrev pub place_object : Contents → ℕ → Option Pointer → Option Pointer → Contents × List Effect
  place_object c i object none = (update c i (object, (c i).1), [])
  place_object c i object (some old) =
      if is_reference old
      then (c, rebinds old object ∷ [])
      else (update c i (object, (c i).1), deletes old ∷ [])

  abbrev pub promised : ℕ → Contents → Operation → Thrown (Contents × List Effect)
  promised n c (sets i object) = bounded n i (ok (place_object c i object (c i).0))
  promised n c (moves s d) =
      bounded n s (bounded n d (ok (update (update c d (c s)) s (none, 0), [])))
  promised n c (swaps s d) = bounded n s (bounded n d (ok (update (update c s (c d)) d (c s), [])))
  promised n c (empties i) = bounded n i (ok (update c i (none, 0), []))
  promised n c (frees i) =
      bounded n i
        (present (c i).0 RegisterError.invalid_free λ p. ok (update c i (none, 0), deletes p ∷ []))
  promised n c (clears i) = bounded n i (ok (update c i ((c i).0, 0), []))
  promised n c (flags i f) = bounded n i (
      present (c i).0 RegisterError.null_register
        λ p. ok (update c i ((c i).0, bit_or (c i).1 f), []))
  promised n c (unflags i f) = bounded n i (
      present (c i).0 RegisterError.null_register
        λ p. ok (update c i ((c i).0, bit_xor (c i).1 f), []))
  promised n c (setmasks i m) =
      bounded n i
        (present (c i).0 RegisterError.null_register λ p. ok (update c i ((c i).0, m), []))

abbrev pub viewed : Thrown (RegisterSet × List Effect) → Thrown (Contents × List Effect)
viewed (ok (rs, effects)) = ok (contents rs, effects)
viewed (err e) = err e

-- Writing a register, or a mask, within bounds.
contents-with_register :
    (rs : RegisterSet) (i : ℕ) (p : Option Pointer)
    → IsValid rs
    → i < rs.registerset_size
    → contents (with_register i p rs) ≡ update (contents rs) i (p, mask rs i)
contents-with_register rs i p v h = fun_ext λ j. ground (arith, get_or-set rs.registers i p j none)

contents-with_mask :
    (rs : RegisterSet) (i : ℕ) (m : Mask)
    → IsValid rs
    → i < rs.registerset_size
    → contents (with_mask i m rs) ≡ update (contents rs) i (register rs i, m)
contents-with_mask rs i m v h = fun_ext λ j. ground (arith, get_or-set rs.masks i m j 0)

-- Both at once, when the register is written and its mask is set.
pub contents-with_both :
    (rs : RegisterSet) (i : ℕ) (p : Option Pointer) (m : Mask)
    → IsValid rs
    → i < rs.registerset_size
    → contents (with_mask i m (with_register i p rs)) ≡ update (contents rs) i (p, m)
contents-with_both rs i p m v h =
    fun_ext λ j. ground (arith, get_or-set rs.registers i p j none, get_or-set rs.masks i m j 0)

-- Two registers and their masks, the second write over the first.
contents-with_two :
    (rs : RegisterSet) (i k : ℕ) (p q : Option Pointer) (m n : Mask)
    → IsValid rs
    → i < rs.registerset_size
    → k < rs.registerset_size
    → contents (record rs {
      registers = put_at (put_at rs.registers i p) k q;
      masks = put_at (put_at rs.masks i m) k n;
    })
      ≡ update (update (contents rs) i (p, m)) k (q, n)
contents-with_two rs i k p q m n v h l = fun_ext λ j. ground (
  arith,
  get_or-set rs.registers i p j none,
  get_or-set (put_at rs.registers i p) k q j none,
  length-set rs.registers i p,
  get_or-set rs.masks i m j 0,
  get_or-set (put_at rs.masks i m) k n j 0,
  length-set rs.masks i m,
)

module _ (is_reference : Pointer → Bool) where
  sets-promised :
      (rs : RegisterSet) (i : ℕ) (object : Option Pointer)
      → IsValid rs
      → viewed (apply is_reference rs (sets i object))
        ≡ promised is_reference rs.registerset_size (contents rs) (sets i object)
  unfolding apply set
  sets-promised rs i object v = elim (Bool-cases (ltb i rs.registerset_size)) [
    | inr out ↦ rw out refl
    | inl inside ↦ ground (arith, contents-with_register rs i object v)
  ]

  moves-promised :
      (rs : RegisterSet) (s d : ℕ)
      → IsValid rs
      → viewed (apply is_reference rs (moves s d))
        ≡ promised is_reference rs.registerset_size (contents rs) (moves s d)
  unfolding apply move
  moves-promised rs s d v =
      ground (arith, contents-with_two rs d s (register rs s) none (mask rs s) 0 v)

  swaps-promised :
      (rs : RegisterSet) (s d : ℕ)
      → IsValid rs
      → viewed (apply is_reference rs (swaps s d))
        ≡ promised is_reference rs.registerset_size (contents rs) (swaps s d)
  unfolding apply swap
  swaps-promised rs s d v =
      ground
        (arith, contents-with_two rs s d (register rs d) (register rs s) (mask rs d) (mask rs s) v)

  -- On a valid register set every operation does to the abstract view what is promised: the same
  -- errors in the same order, the same effects, and no register changed but those that it names.
  pub apply-promised :
      (rs : RegisterSet) (op : Operation)
      → IsValid rs
      → viewed (apply is_reference rs op)
        ≡ promised is_reference rs.registerset_size (contents rs) op
  unfolding apply empty free clear flag unflag setmask
  apply-promised rs (sets i object) v = sets-promised rs i object v
  apply-promised rs (moves s d) v = moves-promised rs s d v
  apply-promised rs (swaps s d) v = swaps-promised rs s d v
  apply-promised rs (empties i) v = ground (arith, contents-with_both rs i none 0 v)
  apply-promised rs (frees i) v = ground (arith, contents-with_both rs i none 0 v)
  apply-promised rs (clears i) v = ground (arith, contents-with_mask rs i 0 v)
  apply-promised rs (flags i f) v = ground (arith, contents-with_mask rs i (bit_or (mask rs i) f) v)
  apply-promised rs (unflags i f) v =
      ground (arith, contents-with_mask rs i (bit_xor (mask rs i) f) v)
  apply-promised rs (setmasks i m) v = ground (arith, contents-with_mask rs i m v)
