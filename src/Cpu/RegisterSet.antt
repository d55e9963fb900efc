-- ===== src/Cpu/RegisterSet.antt =====
-- include/viua/cpu/registerset.h and src/cpu/registerset.cpp. A pointer is a number, a null pointer is
-- `none`; what an operation does to the objects behind the pointers is listed as its effects.
pub mod Operations
pub mod Invariant
pub mod Lifetime
pub mod Flags
use viuavm.Common.{
  ℕ, zero, suc, ◌+◌, ◌≡◌, Bool, true, false, not, Option, none, some, List, [], ◌∷◌, ◌++◌, leb, ltb,
  ◌==◌, if◌then◌else◌, get_or, set as put_at, replicate, bit_and, bit_or, bit_xor,
}
use viuavm.Common.Throw.{Result, ok, err, ◌>>=◌, ◌>>◌, guard}

abbrev pub Pointer : Type 0
Pointer = ℕ

abbrev pub Mask : Type 0
Mask = ℕ

-- `enum REGISTER_MASKS`
abbrev pub reference_mask : Mask
reference_mask = 1

abbrev pub copy_on_write_mask : Mask
copy_on_write_mask = 2

abbrev pub keep_mask : Mask
keep_mask = 4

abbrev pub bind_mask : Mask
bind_mask = 8

abbrev pub bound_mask : Mask
bound_mask = 16

-- The exceptions, by what they complain of.
pub data RegisterError : Type 0 where
  out_of_bounds null_register invalid_free : RegisterError

-- `delete p`, and `p->rebind(object)` on a reference.
pub data Effect : Type 0 where
  deletes : Pointer → Effect
  rebinds : Pointer → Option Pointer → Effect

pub record RegisterSet : Type 0 where
  pub registerset_size : ℕ
  pub registers : List (Option Pointer)
  pub masks : List Mask

abbrev pub Thrown {ℓ} : Type ℓ → Type ℓ
Thrown A = Result RegisterError A

-- `registers[i]` and `masks[i]`
abbrev pub register : RegisterSet → ℕ → Option Pointer
register rs i = get_or rs.registers i none

abbrev pub mask : RegisterSet → ℕ → Mask
mask rs i = get_or rs.masks i 0

-- `registers[i] = p` and `masks[i] = m`
abbrev pub with_register : ℕ → Option Pointer → RegisterSet → RegisterSet
with_register i p rs = record rs { registers = put_at rs.registers i p }

abbrev pub with_mask : ℕ → Mask → RegisterSet → RegisterSet
with_mask i m rs = record rs { masks = put_at rs.masks i m }

-- `if (index >= registerset_size) { throw … }`
abbrev pub check : RegisterSet → ℕ → Thrown (Unit {0})
check rs index = guard (ltb index rs.registerset_size) RegisterError.out_of_bounds

abbrev pub check_not_null : RegisterSet → ℕ → RegisterError → Thrown (Unit {0})
check_not_null rs index e = elim (register rs index) [ none ↦ err e | some p ↦ ok tt ]

unfoldable pub at : RegisterSet → ℕ → Thrown (Option Pointer)
at rs index = do check rs index; ok (register rs index)

unfoldable pub get : RegisterSet → ℕ → Thrown Pointer
get rs index = do
  check rs index
  elim (register rs index) [ none ↦ err RegisterError.null_register | some p ↦ ok p ]

unfoldable pub move : RegisterSet → ℕ → ℕ → Thrown RegisterSet
move rs src dst = do
  check rs src
  check rs dst
  let a = with_register dst (register rs src) rs
  let b = with_register src none a
  let c = with_mask dst (mask b src) b
  ok (with_mask src 0 c)

unfoldable pub swap : RegisterSet → ℕ → ℕ → Thrown RegisterSet
swap rs src dst = do
  check rs src
  check rs dst
  let tmp = register rs src
  let a = with_register src (register rs dst) rs
  let b = with_register dst tmp a
  let tmp_mask = mask b src
  let c = with_mask src (mask b dst) b
  ok (with_mask dst tmp_mask c)

unfoldable pub empty : RegisterSet → ℕ → Thrown RegisterSet
empty rs here = do check rs here; ok (with_mask here 0 (with_register here none rs))

unfoldable pub free : RegisterSet → ℕ → Thrown (RegisterSet × List Effect)
free rs here = do
  check rs here
  elim (register rs here) [
    | none ↦ err RegisterError.invalid_free
    | some p ↦ empty rs here >>= λ rs'. ok (rs', deletes p ∷ [])
  ]

unfoldable pub flag : RegisterSet → ℕ → Mask → Thrown RegisterSet
flag rs index filter = do
  check rs index
  check_not_null rs index RegisterError.null_register
  ok (with_mask index (bit_or (mask rs index) filter) rs)

unfoldable pub unflag : RegisterSet → ℕ → Mask → Thrown RegisterSet
unflag rs index filter = do
  check rs index
  check_not_null rs index RegisterError.null_register
  ok (with_mask index (bit_xor (mask rs index) filter) rs)

unfoldable pub clear : RegisterSet → ℕ → Thrown RegisterSet
clear rs index = do check rs index; ok (with_mask index 0 rs)

-- `(masks[index] & filter)` as a `bool`.
abbrev pub has_flag : Mask → Mask → Bool
has_flag m filter = not (bit_and m filter == 0)

unfoldable pub isflagged : RegisterSet → ℕ → Mask → Thrown Bool
isflagged rs index filter = do check rs index; ok (has_flag (mask rs index) filter)

unfoldable pub setmask : RegisterSet → ℕ → Mask → Thrown RegisterSet
setmask rs index m = do
  check rs index
  check_not_null rs index RegisterError.null_register
  ok (with_mask index m rs)

unfoldable pub getmask : RegisterSet → ℕ → Thrown Mask
getmask rs index = do
  check rs index
  check_not_null rs index RegisterError.null_register
  ok (mask rs index)

-- The constructor.
unfoldable pub register_set : ℕ → RegisterSet
register_set sz = record {
  registerset_size = sz;
  registers = replicate sz none;
  masks = replicate sz 0;
}

-- `for (i; i < size(); ++i) { empty(i); }`, with the rounds that are left.
unfoldable pub drop_loop : ℕ → ℕ → RegisterSet → Thrown RegisterSet
drop_loop zero i rs = ok rs
drop_loop (suc n) i rs = empty rs i >>= λ rs'. drop_loop n (i + 1) rs'

unfoldable pub drop : RegisterSet → Thrown RegisterSet
drop rs = drop_loop rs.registerset_size 0 rs

-- `dynamic_cast<Reference*>(p)` succeeds, and the object that `p->copy()` allocates.
module _ (is_reference : Pointer → Bool) where
  unfoldable pub set : RegisterSet → ℕ → Option Pointer → Thrown (RegisterSet × List Effect)
  set rs index object = do
    check rs index
    elim (register rs index) [
      | none ↦ ok (with_register index object rs, [])
      | some old ↦
          if is_reference old
          then ok (rs, rebinds old object ∷ [])
          else ok (with_register index object rs, deletes old ∷ [])
    ]

  -- Each register has an object of its own allocated.
  module _ (copy_of : ℕ → Pointer → Pointer) where
    -- One round of `copy`, for a register that is not empty.
    unfoldable pub copy_one : RegisterSet → RegisterSet → ℕ → Pointer → Thrown RegisterSet
    copy_one rs rscopy i p = do
      shared ← isflagged rs i (bit_or reference_mask bound_mask)
      (placed, effects) ← set rscopy i (some (if shared then p else copy_of i p))
      m ← getmask rs i
      setmask placed i m

    -- The body of the loop: an empty register is passed over.
    unfoldable pub copy_round : RegisterSet → RegisterSet → ℕ → Option Pointer → Thrown RegisterSet
    copy_round rs rscopy i none = ok rscopy
    copy_round rs rscopy i (some p) = copy_one rs rscopy i p

    unfoldable pub copy_loop : ℕ → ℕ → RegisterSet → RegisterSet → Thrown RegisterSet
    copy_loop zero i rs rscopy = ok rscopy
    copy_loop (suc n) i rs rscopy = do
      p ← at rs i
      next ← copy_round rs rscopy i p
      copy_loop n (i + 1) rs next

    unfoldable pub copy : RegisterSet → Thrown RegisterSet
    copy rs = copy_loop rs.registerset_size 0 rs (register_set rs.registerset_size)

-- The destructor: the objects that it deletes, in order.
abbrev pub kept_masks : Mask
kept_masks = bit_or (bit_or keep_mask reference_mask) bound_mask

unfoldable pub destroy_loop : List (Option Pointer) → List Mask → List Effect
destroy_loop (some p ∷ registers) (m ∷ masks) =
    let rest = destroy_loop registers masks in
    if has_flag m kept_masks then rest else deletes p ∷ rest
destroy_loop (none ∷ registers) (m ∷ masks) = destroy_loop registers masks
destroy_loop _ _ = []

unfoldable pub destroy : RegisterSet → List Effect
destroy rs = destroy_loop rs.registers rs.masks
