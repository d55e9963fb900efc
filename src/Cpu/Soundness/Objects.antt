-- ===== src/Cpu/Soundness/Objects.antt =====
-- src/cpu/cpu.cpp: reading and writing registers and objects keeps the machine sound.
use viuavm.Common.{
  ◌≡◌, refl, Bool, true, false, Option, none, some, List, [], ◌∷◌, length, Text, arith,
}
use viuavm.Common.Throw.{ok, err}
use viuavm.Cpu.RegisterSet.{RegisterSet, Pointer, Thrown, Effect, deletes, rebinds}
use viuavm.Cpu.Machine.{
  lookup_at, used, with_selected, Cpu, Frame, Word, Address, Object, Selected, lookup, is_some,
  find_frame, put_regset, with_used, modify, nothing, global, local, static,
}
use viuavm.Cpu.Machine.Objects.{
  followed, lift, registers, on_registers, object_at, new_object, points_to, perform_one, perform,
  set_register, fetch, updaterefs, update_unless_flagged, place, fetch_object, fetch_integer,
  fetch_as_integer, fetch_boolean, copy_object, place_new,
}
use viuavm.Cpu.Machine.Operands.{operand, resolve, text_at}
use viuavm.Cpu.Soundness.{
  Keeps-then, Keeps, Keeps-deref, Keeps-bind, Keeps-modify, keeps_rules, IsSound, Sound, Selects,
}

pub length-put_regset :
    (p : Pointer) (rs : RegisterSet) (frames : List Frame)
    → length (put_regset p rs frames) ≡ length frames
unfolding put_regset
length-put_regset p rs [] = refl
length-put_regset p rs (f ∷ rest) = ground (arith, length-put_regset p rs rest)

find_frame-put_regset :
    (q p : Pointer) (rs : RegisterSet) (frames : List Frame)
    → is_some (find_frame q (put_regset p rs frames)) ≡ is_some (find_frame q frames)
unfolding put_regset find_frame
find_frame-put_regset q p rs [] = refl
find_frame-put_regset q p rs (f ∷ rest) = ground (arith, find_frame-put_regset q p rs rest)

lookup-shadowed :
    (name key : Text) (rs : RegisterSet) (statics : List (Text × RegisterSet))
    → is_some (lookup name statics) ≡ true
    → is_some (lookup name ((key, rs) ∷ statics)) ≡ true
unfolding lookup
lookup-shadowed name key rs statics h = ground arith

with_selected-IsSound :
    (u : Selected) (rs : RegisterSet) (s : Cpu)
    → s.uregset ≡ u
    → IsSound s
    → Selects s.global_regset u s.frames s.static_registers
    → IsSound (with_selected u rs s)
unfolding with_selected
with_selected-IsSound nothing rs s e k h = absurd h
with_selected-IsSound global rs s e k h = record {
  bounded = k.bounded;
  has_globals = refl;
  selects = rw e refl;
}
with_selected-IsSound (local p) rs s e k h = record {
  has_globals = k.has_globals;
  bounded = rw (length-put_regset p rs s.frames) k.bounded;
  selects = rw (e, find_frame-put_regset p p rs s.frames) h;
}
with_selected-IsSound (static name) rs s e k h = record {
  bounded = k.bounded;
  has_globals = k.has_globals;
  selects = rw e (lookup-shadowed name name rs s.static_registers h);
}

with_used-IsSound : (rs : RegisterSet) (s : Cpu) → IsSound s → IsSound (with_used rs s)
unfolding with_used
with_used-IsSound rs s h = with_selected-IsSound s.uregset rs s refl h h.selects

pub Keeps-with_used : (rs : RegisterSet) → Keeps (modify (with_used rs))
Keeps-with_used rs = Keeps-modify _ (with_used-IsSound rs)

-- Code that leaves the stack, the register pointer and the static registers alone.
pub Keeps-lift {ℓ} : {A : Type ℓ} (r : Thrown A) → Keeps (lift r)
unfolding lift
Keeps-lift (ok a) = record { from = λ s h. h }
Keeps-lift (err e) = record { from = λ s h. h }

pub Keeps-registers : Keeps registers
unfolding registers
Keeps-registers = record { from = λ s h. (Keeps-deref (used s)).from s h }

pub Keeps-object_at : (p : Pointer) → Keeps (object_at p)
unfolding object_at
Keeps-object_at p = record { from = λ s h. (Keeps-deref (lookup_at p s.objects)).from s h }

pub Keeps-new_object : (o : Object) → Keeps (new_object o)
unfolding new_object
Keeps-new_object o = record { from = λ s h. h }

pub Keeps-points_to : (c : Pointer) → Keeps (points_to c)
unfolding points_to
Keeps-points_to c = record { from = λ s h. ground arith }

pub Keeps-perform_one : (e : Effect) → Keeps (perform_one e)
unfolding perform_one
Keeps-perform_one (deletes p) = record { from = λ s h. h }
Keeps-perform_one (rebinds r object) = record { from = λ s h. ground arith }

pub ruleset access_rules = (
  keeps_rules, Keeps-with_used, Keeps-lift, Keeps-registers, Keeps-object_at, Keeps-new_object,
  Keeps-points_to, Keeps-perform_one,
)

pub Keeps-perform : (es : List Effect) → Keeps (perform es)
unfolding perform
Keeps-perform [] = search access_rules
Keeps-perform (e ∷ es) = Keeps-then _ _ (Keeps-perform_one e) (Keeps-perform es)

pub Keeps-on_registers : (f : RegisterSet → Thrown RegisterSet) → Keeps (on_registers f)
unfolding on_registers
Keeps-on_registers f = search access_rules

pub Keeps-set_register : (i : Word) (o : Option Pointer) → Keeps (set_register i o)
unfolding set_register
Keeps-set_register i o = search (access_rules, Keeps-perform) depth 12

pub Keeps-followed : (p : Pointer) (o : Object) → Keeps (followed p o)
unfolding followed
Keeps-followed p (Object.reference c) = search access_rules
Keeps-followed p _ = search access_rules

pub Keeps-fetch : (i : Word) → Keeps (fetch i)
unfolding fetch
Keeps-fetch i = search (access_rules, Keeps-followed) depth 8

pub Keeps-updaterefs : (p : Pointer) (o : Option Pointer) → Keeps (updaterefs p o)
unfolding updaterefs
Keeps-updaterefs p o = search (access_rules, Keeps-on_registers)

pub Keeps-update_unless_flagged :
    (i : Word) (old obj : Option Pointer) → Keeps (update_unless_flagged i old obj)
unfolding update_unless_flagged
Keeps-update_unless_flagged i none obj = search access_rules
Keeps-update_unless_flagged i (some p) obj = search (access_rules, Keeps-updaterefs)

pub Keeps-place : (i : Word) (o : Option Pointer) → Keeps (place i o)
unfolding place
Keeps-place i o = search (access_rules, Keeps-set_register, Keeps-update_unless_flagged) depth 12

pub Keeps-fetch_object : (i : Word) → Keeps (fetch_object i)
unfolding fetch_object
Keeps-fetch_object i = search (access_rules, Keeps-fetch)

pub Keeps-fetch_integer : (i : Word) → Keeps (fetch_integer i)
unfolding fetch_integer
Keeps-fetch_integer i = search (access_rules, Keeps-fetch_object)

pub Keeps-fetch_as_integer : (i : Word) → Keeps (fetch_as_integer i)
unfolding fetch_as_integer
Keeps-fetch_as_integer i = search (access_rules, Keeps-fetch_object)

pub Keeps-fetch_boolean : (i : Word) → Keeps (fetch_boolean i)
unfolding fetch_boolean
Keeps-fetch_boolean i = search (access_rules, Keeps-fetch_object)

pub Keeps-copy_object : (p : Pointer) → Keeps (copy_object p)
unfolding copy_object
Keeps-copy_object p = search access_rules

pub Keeps-place_new : (i : Word) (o : Object) → Keeps (place_new i o)
unfolding place_new
Keeps-place_new i o = search (access_rules, Keeps-place)

pub Keeps-operand : (a : Address) → Keeps (operand a)
unfolding operand
Keeps-operand a = search access_rules

pub Keeps-resolve : (o : Bool × Word) → Keeps (resolve o)
unfolding resolve
Keeps-resolve (true, n) = search Keeps-fetch_integer
Keeps-resolve (false, n) = search access_rules

pub Keeps-text_at : (a : Address) → Keeps (text_at a)
unfolding text_at
Keeps-text_at a = search access_rules

pub ruleset object_rules = (
  access_rules, Keeps-perform, Keeps-on_registers, Keeps-set_register, Keeps-fetch, Keeps-place,
  Keeps-fetch_object, Keeps-fetch_integer, Keeps-fetch_as_integer, Keeps-fetch_boolean,
  Keeps-copy_object, Keeps-place_new, Keeps-operand, Keeps-resolve, Keeps-text_at,
)
