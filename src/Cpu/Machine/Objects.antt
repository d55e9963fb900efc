-- ===== src/Cpu/Machine/Objects.antt =====
-- src/cpu/cpu.cpp: fetching an object from a register and placing one there; include/viua/types: what
-- the objects answer. Reference counts are not kept: a deletion is listed among the effects.
use viuavm.Common.{
  ◌+◌, ◌%◌, ◌==◌, Bool, true, false, not, if◌then◌else◌, Option, none, some, List, [], ◌∷◌, Text,
  codes,
}
use viuavm.Common.Throw.{ok, err}
use viuavm.Cpu.RegisterSet.{
  RegisterSet, Pointer, Effect, deletes, rebinds, Thrown, reference_mask, at, get, isflagged,
  set as set_in,
}
use viuavm.Cpu.Machine.{
  Cpu, Object, Exec, Stop, Cause, Word, integer, boolean, floating, byte, string, reference,
  exception, instance_of, ◌>>=◌, ◌>>◌, pure, read, modify, deref, lookup_at, used, with_used,
}
use viuavm.Cpu.Machine.Sharing.{hasrefs, updated_references}

-- What an operation on a register set throws is passed on.
unfoldable pub lift {ℓ} : {A : Type ℓ} → Thrown A → Exec A
lift (ok a) s = ok (a, s)
lift (err e) s = err (Stop.raises (Cause.register_error e), s)

-- `*uregset`
unfoldable pub registers : Exec RegisterSet
registers s = deref (used s) s

-- `uregset->operation(…)`
unfoldable pub on_registers : (RegisterSet → Thrown RegisterSet) → Exec (Unit {0})
on_registers f = do rs ← registers; rs' ← lift (f rs); modify (with_used rs')

-- The object at an address.
unfoldable pub object_at : Pointer → Exec Object
object_at p s = deref (lookup_at p s.objects) s

-- `dynamic_cast<Reference*>(p)` succeeds.
unfoldable pub is_reference : Cpu → Pointer → Bool
is_reference s p = elim (lookup_at p s.objects) [ some (reference c) ↦ true | _ ↦ false ]

-- `new` of an object that has been built.
unfoldable pub new_object : Object → Exec Pointer
new_object o s = ok (s.next, record s { objects = (s.next, o) ∷ s.objects; next = s.next + 1 })

-- `pointsTo()`
unfoldable pub points_to : Pointer → Exec (Option Pointer)
points_to c s = elim (lookup_at c s.cells) [ none ↦ err (Stop.undefined, s) | some p ↦ ok (p, s) ]

-- Deletions are listed; `rebind` also changes what the cell holds.
unfoldable pub perform_one : Effect → Exec (Unit {0})
perform_one (deletes p) s = ok (tt, record s { effects = deletes p ∷ s.effects })
perform_one (rebinds r object) s = elim (lookup_at r s.objects) [
  | some (reference c) ↦
      ok (tt, record s { cells = (c, object) ∷ s.cells; effects = rebinds r object ∷ s.effects })
  | _ ↦ err (Stop.undefined, s)
]

unfoldable pub perform : List Effect → Exec (Unit {0})
perform [] = pure tt
perform (e ∷ es) = perform_one e >> perform es

-- `uregset->set(index, object)`
unfoldable pub set_register : Word → Option Pointer → Exec (Unit {0})
set_register index object = do
  s ← read
  rs ← registers
  (rs', effects) ← lift (set_in (is_reference s) rs index object)
  modify (with_used rs')
  perform effects

-- A reference is followed once.
unfoldable pub followed : Pointer → Object → Exec (Option Pointer)
followed p (reference c) = points_to c
followed p o = pure (some p)

-- `CPU::fetch`
unfoldable pub fetch : Word → Exec (Option Pointer)
fetch index = do rs ← registers; p ← lift (get rs index); o ← object_at p; followed p o

-- `CPU::updaterefs`, on the registers in use.
unfoldable pub updaterefs : Pointer → Option Pointer → Exec (Unit {0})
updaterefs before now = do s ← read; on_registers (updated_references (is_reference s) before now)

-- The end of `CPU::place`: references are updated unless the register is marked as one.
unfoldable pub update_unless_flagged : Word → Option Pointer → Option Pointer → Exec (Unit {0})
update_unless_flagged index none obj = pure tt
update_unless_flagged index (some before) obj = do
  now ← registers
  flagged ← lift (isflagged now index reference_mask)
  if flagged then pure tt else updaterefs before obj

-- `CPU::place`
unfoldable pub place : Word → Option Pointer → Exec (Unit {0})
place index obj = do
  rs ← registers
  has ← lift (hasrefs rs index)
  old ← if has then lift (at rs index) else pure none
  set_register index obj
  update_unless_flagged index old obj

-- `static_cast<Integer*>(p)->value()`: a Boolean keeps its value apart from the number it inherits,
-- which is 0.
unfoldable pub integer_of : Object → Option Word
integer_of (integer n) = some n
integer_of (boolean b) = some 0
integer_of _ = none

-- `static_cast<IntegerCast*>(p)->as_integer()`, by the virtual table.
unfoldable pub as_integer_of : Object → Option Word
as_integer_of (integer n) = some n
as_integer_of (boolean b) = some (if b then 1 else 0)
as_integer_of _ = none

-- `p->boolean()`, which for a float is a comparison of the number with zero. None for a reference,
-- which asks its object.
unfoldable pub boolean_of : Object → Option Bool
boolean_of (integer n) = some (not (n == 0))
boolean_of (boolean b) = some b
boolean_of (floating bits) = some (not (bits % 2147483648 == 0))
boolean_of (byte b) = some (not (b == 0))
boolean_of (string []) = some false
boolean_of (string (c ∷ t)) = some true
boolean_of (exception etype cause) = some true
boolean_of (instance_of name truth) = some truth
boolean_of (reference c) = none

-- `p->type()`
unfoldable pub type_of : Object → Option Text
type_of (integer n) = some (codes "Integer")
type_of (boolean b) = some (codes "Boolean")
type_of (floating bits) = some (codes "Float")
type_of (byte b) = some (codes "Byte")
type_of (string t) = some (codes "String")
type_of (exception etype cause) = some (codes "Exception")
type_of (instance_of name truth) = some name
type_of (reference c) = none

-- What `p->copy()` allocates: a reference shares its cell, an exception loses its detailed type.
unfoldable pub copy_of : Object → Object
copy_of (exception etype cause) = exception (codes "Exception") cause
copy_of o = o

-- `fetch(index)`, dereferenced.
unfoldable pub fetch_object : Word → Exec Object
fetch_object index = do found ← fetch index; p ← deref found; object_at p

-- `static_cast<Integer*>(fetch(index))->value()`
unfoldable pub fetch_integer : Word → Exec Word
fetch_integer index = do o ← fetch_object index; deref (integer_of o)

-- `static_cast<IntegerCast*>(fetch(index))->as_integer()`
unfoldable pub fetch_as_integer : Word → Exec Word
fetch_as_integer index = do o ← fetch_object index; deref (as_integer_of o)

-- `fetch(index)->boolean()`
unfoldable pub fetch_boolean : Word → Exec Bool
fetch_boolean index = do o ← fetch_object index; deref (boolean_of o)

-- `p->copy()`
unfoldable pub copy_object : Pointer → Exec Pointer
copy_object p = do o ← object_at p; new_object (copy_of o)

-- `place(index, new …)`
unfoldable pub place_new : Word → Object → Exec (Unit {0})
place_new index o = do p ← new_object o; place index (some p)
