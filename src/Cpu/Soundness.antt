-- ===== src/Cpu/Soundness.antt =====
-- src/cpu: what every instruction keeps. The call stack is bounded, and the global registers and the
-- register set that `uregset` points to are there.
pub mod Objects
pub mod Frames
pub mod Calls
pub mod Blocks
pub mod Instructions
pub mod Floats
pub mod Registers
pub mod Tick
pub mod Dispatch
pub mod Run
use viuavm.Common.{
  ℕ, ◌+◌, ◌≤◌, ◌≡◌, refl, Bool, true, false, Option, none, some, List, [], ◌∷◌, arith, length, Text,
  if◌then◌else◌, inl, inr, Bool-cases, ◌=ᵗ◌,
}
use viuavm.Common.Throw.{Result, ok, err}
use viuavm.Cpu.RegisterSet.{RegisterSet, Pointer}
use viuavm.Cpu.Machine.{
  maybe, Cpu, Frame, Exec, Stop, Cause, Selected, ◌>>=◌, ◌>>◌, pure, stop, raise, read, modify,
  require, deref, at_key, lookup, is_some, find_frame, put_regset, with_used, nothing, global,
  local, static,
}

-- The register set that `uregset` points to is there.
abbrev pub Selects : Option RegisterSet → Selected → List Frame → List (Text × RegisterSet) → Type 0
Selects g nothing frames statics = ⊥
Selects g global frames statics = is_some g ≡ true
Selects g (local p) frames statics = is_some (find_frame p frames) ≡ true
Selects g (static name) frames statics = is_some (lookup name statics) ≡ true

pub record Sound (g : Option RegisterSet) (frames : List Frame) (u : Selected)
    (statics : List (Text × RegisterSet)) : Type 0 where
  pub bounded : length frames ≤ 8193
  pub has_globals : is_some g ≡ true
  pub selects : Selects g u frames statics

abbrev pub IsSound : Cpu → Type 0
IsSound s = Sound s.global_regset s.frames s.uregset s.static_registers

-- A state that is kept whether the code returns or is stopped.
abbrev pub After {ℓ} : {A : Type ℓ} → (Cpu → Type 0) → Result (Stop × Cpu) (A × Cpu) → Type 0
After P (ok r) = P r.1
After P (err e) = P e.1

pub record Keeps {ℓ} {A : Type ℓ} (m : Exec A) : Type ℓ where
  pub from : (s : Cpu) → IsSound s → After IsSound (m s)

module _ {ℓ} {A : Type ℓ} where
  pub Keeps-pure : (a : A) → Keeps (pure a)
  unfolding pure
  Keeps-pure a = record { from = λ s h. h }

  pub Keeps-stop : (e : Stop) → Keeps (stop {A = A} e)
  unfolding stop
  Keeps-stop e = record { from = λ s h. h }

  pub Keeps-raise : (c : Cause) → Keeps (raise {A = A} c)
  unfolding raise
  Keeps-raise c = record { from = λ s h. h }

  pub Keeps-deref : (o : Option A) → Keeps (deref o)
  unfolding deref
  Keeps-deref none = record { from = λ s h. h }
  Keeps-deref (some a) = record { from = λ s h. h }

  pub Keeps-at_key : (o : Option A) → Keeps (at_key o)
  unfolding at_key
  Keeps-at_key none = record { from = λ s h. h }
  Keeps-at_key (some a) = record { from = λ s h. h }

  pub Keeps-if : (b : Bool) (m n : Exec A) → Keeps m → Keeps n → Keeps (if b then m else n)
  Keeps-if true m n km kn = km
  Keeps-if false m n km kn = kn

  pub Keeps-option {κ} :
      {B : Type κ} (o : Option B) (m : Exec A) (f : B → Exec A)
      → Keeps m
      → ((b : B) → Keeps (f b))
      → Keeps (maybe o m f)
  Keeps-option none m f km kf = km
  Keeps-option (some b) m f km kf = kf b

pub Keeps-read : Keeps read
unfolding read
Keeps-read = record { from = λ s h. h }

pub Keeps-require : (b : Bool) (c : Cause) → Keeps (require b c)
unfolding require
Keeps-require true c = record { from = λ s h. h }
Keeps-require false c = record { from = λ s h. h }

pub Keeps-modify : (f : Cpu → Cpu) → ((s : Cpu) → IsSound s → IsSound (f s)) → Keeps (modify f)
unfolding modify
Keeps-modify f k = record { from = k }

module _ {ℓ κ} {A : Type ℓ} {B : Type κ} where
  After-bind :
      (r : Result (Stop × Cpu) (A × Cpu)) (f : A → Exec B)
      → After IsSound r
      → ((a : A) → Keeps (f a))
      → After IsSound (elim r [ ok x ↦ f x.0 x.1 | err e ↦ err e ])
  After-bind (ok x) f h kf = (kf x.0).from x.1 h
  After-bind (err e) f h kf = h

  pub Keeps-bind :
      (m : Exec A) (f : A → Exec B) → Keeps m → ((a : A) → Keeps (f a)) → Keeps (m >>= f)
  unfolding ◌>>=◌
  Keeps-bind m f km kf = record { from = λ s h. After-bind (m s) f (km.from s h) kf }

module _ {κ} {B : Type κ} where
  pub Keeps-then : (m : Exec (Unit {0})) (k : Exec B) → Keeps m → Keeps k → Keeps (m >> k)
  unfolding ◌>>◌
  Keeps-then m k km kk = Keeps-bind m (λ _. k) km (λ _. kk)

pub ruleset keeps_rules = (
  Keeps-pure, Keeps-stop, Keeps-raise, Keeps-deref, Keeps-at_key, Keeps-if, Keeps-option,
  Keeps-read, Keeps-require, Keeps-bind, Keeps-then,
)
