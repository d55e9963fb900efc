-- ===== src/Cpu/RegisterSet/Lifetime.antt =====
-- `drop` and `copy`: the loops over all registers.
use viuavm.Common.{
  inr, inl, Bool-cases, subst, ℕ, zero, suc, ◌+◌, ◌<◌, ◌≡◌, refl, Bool, Option, none, some, arith,
  get_or-set, get_or-past, get_or-replicate, length-replicate, length-set, ltb, lt→ltb, le→ltb, ap,
  ◌∙◌, fun_ext, if◌then◌else◌, ◌==◌,
}
use viuavm.Common.Throw.{ok}
use viuavm.Cpu.RegisterSet.{
  copy_round, RegisterSet, Pointer, Mask, register, mask, with_register, with_mask, empty,
  drop_loop, drop, at, set, setmask, getmask, isflagged, has_flag, copy_one, copy_loop, copy,
  register_set,
}
use viuavm.Cpu.RegisterSet.Operations.{IsValid, contents, Contents, contents-with_both, update}

emptied :
    (rs : RegisterSet) (i : ℕ) → IsValid rs → IsValid (with_mask i 0 (with_register i none rs))
emptied rs i v = ground (arith, length-set rs.registers i none, length-set rs.masks i 0)

empty_lem :
    (rs : RegisterSet) (i : ℕ)
    → i < rs.registerset_size
    → empty rs i ≡ ok (with_mask i 0 (with_register i none rs))
unfolding empty
empty_lem rs i h = ground arith

-- One more index below the bound, where the value at that index is the other one.
widen :
    (j i : ℕ) (x y z : Option Pointer × Mask)
    → z ≡ (if i == j then y else x)
    → (if ltb j (i + 1) then z else y) ≡ (if ltb j i then x else y)
widen j i x y z h = ground arith

-- The same, where the values are those of a function.
narrow :
    (j i : ℕ) (f : ℕ → Option Pointer × Mask) (y z w : Option Pointer × Mask)
    → z ≡ (if i == j then f i else w)
    → w ≡ (if ltb j i then f j else y)
    → z ≡ (if ltb j (i + 1) then f j else y)
narrow j i f y z w h k = ground arith

register_set-IsValid : (n : ℕ) → IsValid (register_set n)
unfolding register_set
register_set-IsValid n = record {
  registers_sized = length-replicate n none;
  masks_sized = length-replicate n 0;
}

fresh_contents : (n j : ℕ) → contents (register_set n) j ≡ (none, 0)
unfolding register_set
fresh_contents n j =
    let null : Option Pointer = none in
    ground (arith, get_or-replicate n null j, get_or-replicate {A = ℕ} n 0 j)

-- The registers below `i` are left, and those from `i` on emptied.
drop_loop_lem :
    (n i : ℕ) (rs : RegisterSet)
    → IsValid rs
    → i + n ≡ rs.registerset_size
    → (rs' : RegisterSet) × (drop_loop n i rs ≡ ok rs')
      × ((j : ℕ) → contents rs' j ≡ (if ltb j i then contents rs j else (none, 0)))
unfolding drop_loop
drop_loop_lem zero i rs v e =
    (rs, refl, λ j. ground (arith, get_or-past rs.registers j none, get_or-past rs.masks j 0))
drop_loop_lem (suc n) i rs v e =
    let next = with_mask i 0 (with_register i none rs) in
    let (rs', step, rest) = drop_loop_lem n (i + 1) next (emptied rs i v) (omega arith) in
    (
      rs',
      rw (empty_lem rs i (omega arith)) step,
      λ j.
          rest j
          ∙ widen j i (contents rs j) (none, 0) (contents next j)
              (ap (λ (c : Contents). c j) (contents-with_both rs i none 0 v (omega arith))),
    )

-- On a valid register set `drop` succeeds and leaves every register empty, with no flags.
pub drop_lem :
    (rs : RegisterSet)
    → IsValid rs
    → (rs' : RegisterSet) × (drop rs ≡ ok rs') × ((j : ℕ) → contents rs' j ≡ (none, 0))
unfolding drop
drop_lem rs v =
    let (rs', e, rest) = drop_loop_lem rs.registerset_size 0 rs v (omega arith) in
    (rs', e, λ j. rest j ∙ rw (le→ltb j 0 (omega arith)) refl)

module _ (is_reference : Pointer → Bool) (copy_of : ℕ → Pointer → Pointer) where
  -- What the copy of a register holds: references and bound registers are shared, of all else
  -- the register gets a copy of its own;
  -- the mask goes with the object.
  abbrev pub copied : ℕ → Option Pointer × Mask → Option Pointer × Mask
  copied i (none, m) = (none, 0)
  copied i (some p, m) = (some (if has_flag m 17 then p else copy_of i p), m)

  copy_one_lem :
      (rs rc : RegisterSet) (i : ℕ) (p : Pointer)
      → IsValid rc
      → i < rs.registerset_size
      → rc.registerset_size ≡ rs.registerset_size
      → register rs i ≡ some p
      → register rc i ≡ none
      → copy_one is_reference copy_of rs rc i p
        ≡ ok (
            with_mask i
              (mask rs i)
              (with_register i (some (if has_flag (mask rs i) 17 then p else copy_of i p)) rc))
  unfolding copy_one isflagged set getmask setmask
  copy_one_lem rs rc i p v h same held free = ground (
    arith,
    get_or-set rc.registers i (some (if has_flag (mask rs i) 17 then p else copy_of i p)) i none,
  )

  -- One round leaves a valid copy whose register `i` is done.
  copy_step :
      (rs rc : RegisterSet) (i : ℕ) (p : Option Pointer)
      → IsValid rc
      → i < rs.registerset_size
      → rc.registerset_size ≡ rs.registerset_size
      → register rs i ≡ p
      → contents rc i ≡ (none, 0)
      → (next : RegisterSet) × (copy_round is_reference copy_of rs rc i p ≡ ok next)
        × IsValid next
        × (next.registerset_size ≡ rs.registerset_size)
        × (contents next ≡ update (contents rc) i (copied i (contents rs i)))
  unfolding copy_round
  copy_step rs rc i none v h same held free = (rc, refl, v, same, fun_ext λ j. ground arith)
  copy_step rs rc i (some p) v h same held free =
      let q = if has_flag (mask rs i) 17 then p else copy_of i p in
      (
        with_mask i (mask rs i) (with_register i (some q) rc),
        copy_one_lem rs rc i p v h same held (ap (λ (c : Option Pointer × Mask). c.0) free),
        ground (arith, length-set rc.registers i (some q), length-set rc.masks i (mask rs i)),
        same,
        contents-with_both rc i (some q) (mask rs i) v (omega arith)
            ∙ ap (update (contents rc) i) (rw held refl),
      )

  -- The registers below `i` are copied, those from `i` on are still empty.
  abbrev CopiedBelow : RegisterSet → RegisterSet → ℕ → Type 0
  CopiedBelow rs rc i =
      (j : ℕ) → contents rc j ≡ (if ltb j i then copied j (contents rs j) else (none, 0))

  copy_loop_lem :
      (n i : ℕ) (rs rc : RegisterSet)
      → IsValid rs
      → IsValid rc
      → rc.registerset_size ≡ rs.registerset_size
      → i + n ≡ rs.registerset_size
      → CopiedBelow rs rc i
      → (rc' : RegisterSet) × (copy_loop is_reference copy_of n i rs rc ≡ ok rc')
        × IsValid rc'
        × CopiedBelow rs rc' rs.registerset_size
  unfolding copy_loop at
  copy_loop_lem zero i rs rc v w same e below =
      let here : i ≡ rs.registerset_size = omega arith in
      (rc, refl, w, subst (CopiedBelow rs rc) here below)
  copy_loop_lem (suc n) i rs rc v w same e below =
      let free : contents rc i ≡ (none, 0) = below i ∙ rw (le→ltb i i (omega arith)) refl in
      let (next, step, w', same', placed) =
        copy_step rs rc i (register rs i) w (omega arith) same refl free in
      let (rc', run, w'', done) = copy_loop_lem n (i + 1) rs next v w' same' (omega arith) λ j.
        narrow j i (λ k. copied k (contents rs k)) (none, 0) (contents next j) (contents rc j)
          (ap (λ (c : Contents). c j) placed) (below j) in
      (rc', rw (lt→ltb i rs.registerset_size (omega arith), step) run, w'', done)

  -- On a valid register set `copy` succeeds with a valid one that holds in each register what `copied`
  -- says: the shared pointer or a copy of the object, made for that register, and its mask.
  pub copy_lem :
      (rs : RegisterSet)
      → IsValid rs
      → (rc : RegisterSet) × (copy is_reference copy_of rs ≡ ok rc)
        × IsValid rc
        × ((j : ℕ) → contents rc j ≡ copied j (contents rs j))
  unfolding copy register_set
  copy_lem rs v =
      let n = rs.registerset_size in
      let (rc, run, w, done) =
        copy_loop_lem n 0 rs (register_set n) v (register_set-IsValid n) refl (omega arith)
          λ j. fresh_contents n j ∙ rw (le→ltb j 0 (omega arith)) refl in
      (rc, run, w, λ j. done j ∙ within j)
    where
      within :
          (j : ℕ)
          → (if ltb j rs.registerset_size then copied j (contents rs j) else (none, 0))
            ≡ copied j (contents rs j)
      within j = elim (Bool-cases (ltb j rs.registerset_size)) [
        | inl inside ↦ rw inside refl
        | inr outside ↦ rw (outside, get_or-past rs.registers j none (ground arith)) refl
      ]
