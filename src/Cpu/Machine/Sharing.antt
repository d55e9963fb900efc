-- ===== src/Cpu/Machine/Sharing.antt =====
-- src/cpu/cpu.cpp: `hasrefs` and the loop of `updaterefs`, over the registers in use.
use viuavm.Common.{ℕ, zero, suc, ◌+◌, ◌==◌, Bool, true, false, if◌then◌else◌, Option, none, some}
use viuavm.Common.Throw.{ok, ◌>>=◌}
use viuavm.Cpu.RegisterSet.{
  RegisterSet, Pointer, Thrown, at, getmask, setmask, empty, set as set_in,
}

-- `a == b` of two pointers, either of which may be null.
unfoldable pub same_pointer : Option Pointer → Option Pointer → Bool
same_pointer (some a) (some b) = a == b
same_pointer none none = true
same_pointer _ _ = false

-- The loop of `CPU::hasrefs`, with the rounds that are left.
unfoldable pub hasrefs_loop : ℕ → ℕ → RegisterSet → ℕ → Thrown Bool
hasrefs_loop zero i rs index = ok false
hasrefs_loop (suc n) i rs index =
    let rest = hasrefs_loop n (i + 1) rs index in
    let here : Thrown Bool = do
      p ← at rs i
      q ← at rs index
      if same_pointer p q then ok true else rest
    in if i == index then rest else here

unfoldable pub hasrefs : RegisterSet → ℕ → Thrown Bool
hasrefs rs index = hasrefs_loop rs.registerset_size 0 rs index

-- The registers that hold `before`, from register `i` on, are given `now` and keep their masks. The
-- register is empty when it is set, so that nothing is deleted.
module _ (is_ref : Pointer → Bool) where
  unfoldable pub repointed : ℕ → Option Pointer → RegisterSet → Thrown RegisterSet
  repointed i now rs = do
    had_mask ← getmask rs i
    emptied ← empty rs i
    (placed, effects) ← set_in is_ref emptied i now
    setmask placed i had_mask

  unfoldable pub updaterefs_loop :
      ℕ → ℕ → Pointer → Option Pointer → RegisterSet → Thrown RegisterSet
  updaterefs_loop zero i before now rs = ok rs
  updaterefs_loop (suc n) i before now rs = do
    p ← at rs i
    next ← if same_pointer p (some before) then repointed i now rs else ok rs
    updaterefs_loop n (i + 1) before now next

  unfoldable pub updated_references : Pointer → Option Pointer → RegisterSet → Thrown RegisterSet
  updated_references before now rs = updaterefs_loop rs.registerset_size 0 before now rs
