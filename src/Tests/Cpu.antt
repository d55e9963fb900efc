-- ===== src/Tests/Cpu.antt =====
-- Runs of the register set, and its theorems at concrete inputs.
use viuavm.Common.{zero, suc}
use viuavm.Common.Throw.{ok, ◌>>=◌}
use viuavm.Cpu.RegisterSet.{isflagged, move, unflag, flag, Pointer, RegisterSet, drop, copy}
use viuavm.Cpu.RegisterSet.Operations.{
  apply-promised, contents, promised, moves, apply, viewed, IsValid,
}
use viuavm.Cpu.RegisterSet.Invariant.{apply-IsClean, IsClean}
use viuavm.Common.{suc, arith, bit_and, none, ℕ, not, [], ◌==◌, ◌∷◌, refl, ◌≡◌, ◌+◌, Bool, some}
use viuavm.Cpu.RegisterSet.Flags.{isflagged-unflag, isflagged-flag}
use viuavm.Cpu.RegisterSet.Lifetime.{copy_lem, copied, drop_lem}

-- Register 0 holds object 10, register 1 is empty, register 2 holds the reference 21 with two flags.
abbrev sample : RegisterSet
sample = record {
  registerset_size = 3;
  registers = some 10 ∷ none ∷ some 21 ∷ [];
  masks = 0 ∷ 0 ∷ 5 ∷ [];
}

abbrev odd : Pointer → Bool
odd p = p == 21

-- A new object for each register.
abbrev clone : ℕ → Pointer → Pointer
clone i p = 100 + i

sample-IsValid : IsValid sample
sample-IsValid = record { registers_sized = refl; masks_sized = refl }

sample-IsClean : IsClean sample
sample-IsClean zero h = refl
sample-IsClean (suc zero) h = refl
sample-IsClean (suc (suc zero)) h = cc
sample-IsClean (suc (suc (suc j))) h = refl

apply-promised_example :
    viewed (apply odd sample (moves 2 1)) ≡ promised odd 3 (contents sample) (moves 2 1)
apply-promised_example = apply-promised odd sample (moves 2 1) sample-IsValid

abbrev moved : RegisterSet
moved = record {
  registerset_size = 3;
  registers = some 10 ∷ some 21 ∷ none ∷ [];
  masks = 0 ∷ 5 ∷ 0 ∷ [];
}

move_sample : apply odd sample (moves 2 1) ≡ ok (moved, [])
unfolding apply move
move_sample = refl

apply-IsClean_example : IsClean moved
apply-IsClean_example =
    apply-IsClean odd sample moved (moves 2 1) [] sample-IsValid sample-IsClean tt move_sample

isflagged-flag_example : (flag sample 0 4 >>= λ rs'. isflagged rs' 0 4) ≡ ok (not (4 == 0))
isflagged-flag_example =
    isflagged-flag sample 0 10 4 sample-IsValid (omega arith) refl (omega arith) (omega arith)

isflagged-unflag_example :
    (unflag sample 2 6 >>= λ rs'. isflagged rs' 2 6) ≡ ok (not (bit_and 5 6 == 6))
isflagged-unflag_example =
    isflagged-unflag sample 2 21 6 sample-IsValid (omega arith) refl (omega arith) (omega arith)

drop_lem_example :
    (rs' : RegisterSet) × (drop sample ≡ ok rs') × ((j : ℕ) → contents rs' j ≡ (none, 0))
drop_lem_example = drop_lem sample sample-IsValid

copy_lem_example :
    (rc : RegisterSet) × (copy odd clone sample ≡ ok rc)
    × IsValid rc
    × ((j : ℕ) → contents rc j ≡ copied odd clone j (contents sample j))
copy_lem_example = copy_lem odd clone sample sample-IsValid
