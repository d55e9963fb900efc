-- ===== src/Cpu/Dispatch/Returns.antt =====
-- Code that, where it returns at all, returns a given value: one rule for each way to build it.
use viuavm.Common.{sym, subst, ◌≡◌, refl, Bool, true, false, if◌then◌else◌}
use viuavm.Common.Throw.{Result, ok, err}
use viuavm.Cpu.Machine.{Cpu, Exec, Stop, Cause, ◌>>=◌, ◌>>◌, pure, stop, raise}

-- The value of a result.
abbrev pub Value {ℓ} : {A : Type ℓ} → A → Result (Stop × Cpu) (A × Cpu) → Type ℓ
Value v (ok r) = r.0 ≡ v
Value v (err e) = Unit

pub record Returns {ℓ} {A : Type ℓ} (v : A) (m : Exec A) : Type ℓ where
  pub from : (s : Cpu) → Value v (m s)

module _ {ℓ} {A : Type ℓ} (v : A) where
  pub Returns-pure : Returns v (pure v)
  unfolding pure
  Returns-pure = record { from = λ s. refl }

  pub Returns-raise : (c : Cause) → Returns v (raise c)
  unfolding raise
  Returns-raise c = record { from = λ s. tt }

  pub Returns-stop : (e : Stop) → Returns v (stop e)
  unfolding stop
  Returns-stop e = record { from = λ s. tt }

  pub Returns-if :
      (b : Bool) (m n : Exec A) → Returns v m → Returns v n → Returns v (if b then m else n)
  Returns-if true m n rm rn = rm
  Returns-if false m n rm rn = rn

module _ {ℓ κ} {A : Type ℓ} {B : Type κ} (v : B) where
  Value-bind :
      (r : Result (Stop × Cpu) (A × Cpu)) (f : A → Exec B)
      → ((a : A) → Returns v (f a))
      → Value v (elim r [ ok x ↦ f x.0 x.1 | err e ↦ err e ])
  Value-bind (ok x) f rf = (rf x.0).from x.1
  Value-bind (err e) f rf = tt

  pub Returns-bind :
      (m : Exec A) (f : A → Exec B) → ((a : A) → Returns v (f a)) → Returns v (m >>= f)
  unfolding ◌>>=◌
  Returns-bind m f rf = record { from = λ s. Value-bind (m s) f rf }

  Value-bind_at :
      (r : Result (Stop × Cpu) (A × Cpu)) (w : A) (f : A → Exec B)
      → Value w r
      → Returns v (f w)
      → Value v (elim r [ ok x ↦ f x.0 x.1 | err e ↦ err e ])
  Value-bind_at (ok x) w f e rf = (subst (λ y. Returns v (f y)) (sym e) rf).from x.1
  Value-bind_at (err y) w f e rf = tt

  -- The rest may use what the first step returns.
  pub Returns-bind_at :
      (m : Exec A) (w : A) (f : A → Exec B) → Returns w m → Returns v (f w) → Returns v (m >>= f)
  unfolding ◌>>=◌
  Returns-bind_at m w f rm rf = record { from = λ s. Value-bind_at (m s) w f (rm.from s) rf }

module _ {κ} {B : Type κ} (v : B) where
  pub Returns-then : (m : Exec (Unit {0})) (k : Exec B) → Returns v k → Returns v (m >> k)
  unfolding ◌>>◌
  Returns-then m k rk = Returns-bind v m (λ _. k) (λ _. rk)

pub ruleset returns_rules =
    (Returns-pure, Returns-raise, Returns-stop, Returns-if, Returns-bind, Returns-then)
