-- ===== src/Cpu/RegisterSet/Flags.antt =====
-- Masks: what `flag`, `unflag` and `isflagged` do to one another.
use viuavm.Common.{
  get_or-set, ℕ, ◌<◌, ◌≡◌, refl, Bool, true, false, not, ◌==◌, bit_and, bit_or, bit_xor, arith,
  holds_below, holds_below-test, some,
}
use viuavm.Common.Throw.{ok, ◌>>=◌}
use viuavm.Cpu.RegisterSet.{
  RegisterSet, Mask, Pointer, has_flag, isflagged, flag, unflag, register, mask, with_mask,
}
use viuavm.Cpu.RegisterSet.Operations.{IsValid}

-- A law of two bytes, as a test of all pairs.
byte_law : (ℕ → ℕ → Bool) → Bool
byte_law law = holds_below (λ m. holds_below (law m) 256) 256

byte_law_lem :
    (law : ℕ → ℕ → Bool) (m f : ℕ) → byte_law law ≡ true → m < 256 → f < 256 → law m f ≡ true
unfolding byte_law
byte_law_lem law m f h hm hf =
    holds_below-test (law m) 256 f hf (holds_below-test (λ k. holds_below (law k) 256) 256 m hm h)

abbrev same : Bool → Bool → Bool
same true b = b
same false b = not b

same-eq : (a b : Bool) → same a b ≡ true → a ≡ b
same-eq a b h = ground arith

flag_table : byte_law (λ m f. same (has_flag (bit_or m f) f) (not (f == 0))) ≡ true
unfolding byte_law holds_below
flag_table = refl

unflag_table : byte_law (λ m f. same (has_flag (bit_xor m f) f) (not (bit_and m f == f))) ≡ true
unfolding byte_law holds_below
unflag_table = refl

flag_byte : (m f : ℕ) → m < 256 → f < 256 → has_flag (bit_or m f) f ≡ not (f == 0)
flag_byte m f hm hf = same-eq _ _ (byte_law_lem _ m f flag_table hm hf)

unflag_byte : (m f : ℕ) → m < 256 → f < 256 → has_flag (bit_xor m f) f ≡ not (bit_and m f == f)
unflag_byte m f hm hf = same-eq _ _ (byte_law_lem _ m f unflag_table hm hf)

mask-with_mask :
    (rs : RegisterSet) (i : ℕ) (m : Mask)
    → IsValid rs
    → i < rs.registerset_size
    → mask (with_mask i m rs) i ≡ m
mask-with_mask rs i m v h = ground (arith, get_or-set rs.masks i m i 0)

-- Masks of a register that is not empty, and filters, are bytes.
module _ (rs : RegisterSet) (i : ℕ) (p : Pointer) (filter : Mask) (valid : IsValid rs)
    (inside : i < rs.registerset_size) (held : register rs i ≡ some p) (mask_byte : mask rs i < 256)
    (filter_byte : filter < 256) where
  -- In a valid register set, after `flag` of a register that is not empty, with masks of a byte, the
  -- register is flagged, unless the filter is empty.
  pub isflagged-flag : (flag rs i filter >>= λ rs'. isflagged rs' i filter) ≡ ok (not (filter == 0))
  unfolding flag isflagged
  isflagged-flag = ground (
    arith,
    mask-with_mask rs i (bit_or (mask rs i) filter) valid inside,
    flag_byte (mask rs i) filter mask_byte filter_byte,
  )

  -- In a valid register set, after `unflag` of a register that is not empty, with masks of a byte, the
  -- register is flagged exactly if not all flags of the filter were set before: `unflag` toggles, so it
  -- enables the flags that were disabled.
  pub isflagged-unflag :
      (unflag rs i filter >>= λ rs'. isflagged rs' i filter)
      ≡ ok (not (bit_and (mask rs i) filter == filter))
  unfolding unflag isflagged
  isflagged-unflag = ground (
    arith,
    mask-with_mask rs i (bit_xor (mask rs i) filter) valid inside,
    unflag_byte (mask rs i) filter mask_byte filter_byte,
  )
