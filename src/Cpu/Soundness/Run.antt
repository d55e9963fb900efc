-- ===== src/Cpu/Soundness/Run.antt =====
-- src/cpu/cpu.cpp: every tick and every run keep the machine sound.
use viuavm.Common.{some, ◌∷◌, List, ℕ, zero, suc, ◌≡◌, Bool, true, false, none, [], Text, arith}
use viuavm.Common.Throw.{Result, ok, err}
use viuavm.Cpu.Machine.{Frame, Cpu, Stop, Cause, Address, ◌>>◌}
use viuavm.Cpu.Dispatch.{Host, dispatch}
use viuavm.Cpu.Tick.{after_dispatch, throw_exception, tick, ticks}
use viuavm.Cpu.Run.{released}
use viuavm.Cpu.Soundness.{
  RegisterSet, Keeps, Keeps-bind, Keeps-then, Keeps-pure, Keeps-option, IsSound, After,
}
use viuavm.Cpu.Soundness.Calls.{call_rules}
use viuavm.Cpu.Soundness.Tick.{Keeps-handle_thrown}
use viuavm.Cpu.Soundness.Dispatch.{IsTrusted, Keeps-dispatch}

Keeps-after_dispatch : (previous : Address) → Keeps (after_dispatch previous)
unfolding after_dispatch
Keeps-after_dispatch previous = record {
  from = λ s h. ground (arith, h, Keeps-handle_thrown.from s h);
}

module _ (host : Host) (message : Cause → Text) (trusted : IsTrusted host) where
  Keeps-throw_exception : (c : Cause) → Keeps (throw_exception host message c)
  unfolding throw_exception
  Keeps-throw_exception c = search (call_rules)

  -- The end of a tick, for whatever the instruction did.
  After-tick :
      (r : Result (Stop × Cpu) (Address × Cpu)) (previous : Address)
      → After IsSound r
      → After IsSound (elim r [
        | ok (next_address, t) ↦
            after_dispatch previous (record t { instruction_pointer = next_address })
        | err (Stop.halts, t) ↦ ok (none, t)
        | err (Stop.raises c, t) ↦ (throw_exception host message c >> after_dispatch previous) t
        | err (Stop.escapes, t) ↦ err (Stop.escapes, t)
        | err (Stop.undefined, t) ↦ err (Stop.undefined, t)
      ])
  After-tick (ok (next_address, t)) previous h = (Keeps-after_dispatch previous).from _ h
  After-tick (err (Stop.halts, t)) previous h = h
  After-tick (err (Stop.raises c, t)) previous h =
      (Keeps-then _ _ (Keeps-throw_exception c) (Keeps-after_dispatch previous)).from t h
  After-tick (err (Stop.escapes, t)) previous h = h
  After-tick (err (Stop.undefined, t)) previous h = h

  pub Keeps-tick : Keeps (tick host message)
  unfolding tick
  Keeps-tick = record {
    from = λ s h.
        After-tick (dispatch host s.instruction_pointer _) s.instruction_pointer
          ((Keeps-dispatch host trusted s.instruction_pointer).from _ h);
  }

  pub Keeps-ticks : (n : ℕ) → Keeps (ticks host message n)
  unfolding ticks
  Keeps-ticks zero = Keeps-pure true
  Keeps-ticks (suc n) =
      Keeps-bind _ _ Keeps-tick
        λ next_address. Keeps-option next_address _ _ (Keeps-pure false) (λ a. Keeps-ticks n)

-- The machine that is left by a run that has finished, by the name of the exception that ended it:
-- without one the frame on top and the global registers of a sound machine have been deleted.
abbrev pub Left : Text → Cpu → Type 0
Left [] t =
    (u : Cpu) × (f : Frame) × (rest : List Frame) × (rs : RegisterSet) × IsSound u
    × (u.frames ≡ f ∷ rest)
    × (u.global_regset ≡ some rs)
    × (t ≡ released f rest rs u)
Left (c ∷ name) t = IsSound t

abbrev pub Ends : Result (Stop × Cpu) (Bool × Cpu) → Type 0
Ends (ok (false, t)) = IsSound t
Ends (ok (true, t)) = Left t.return_exception t
Ends (err (e, t)) = IsSound t
