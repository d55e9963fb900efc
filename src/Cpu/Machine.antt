-- ===== src/Cpu/Machine.antt =====
-- include/viua/cpu/{cpu,frame,tryframe,catcher}.h and include/viua/types: the state of the CPU, and
-- code that reads it, changes it and may be stopped. Addresses that `new` returns are handed out in
-- order and not used again; an `int` is its 32-bit pattern.
pub mod Sharing
pub mod Objects
pub mod Operands
pub mod Decoding
use viuavm.Common.{
  ap, ℕ, ◌+◌, ◌≡◌, refl, Bool, true, false, Option, none, some, List, [], ◌∷◌, ◌==◌, if◌then◌else◌,
  Text, ◌=ᵗ◌,
}
use viuavm.Common.Throw.{Result, ok, err}
use viuavm.Cpu.RegisterSet.{RegisterSet, Pointer, Effect, RegisterError}

abbrev pub Address : Type 0
Address = ℕ

abbrev pub Word : Type 0
Word = ℕ

-- `class Reference` holds the address of a cell that its copies share. Objects of the classes that
-- have no constructor here are given by what `type()` and `boolean()` return.
pub data Object : Type 0 where
  integer : Word → Object
  boolean : Bool → Object
  floating : ℕ → Object
  byte : ℕ → Object
  string : Text → Object
  reference : Pointer → Object
  exception : Text → Text → Object
  instance_of : Text → Bool → Object

pub record Frame : Type 0 where
  pub this : Pointer
  pub return_address : Address
  pub args : RegisterSet
  pub regset : RegisterSet
  pub place_return_value_in : Word
  pub resolve_return_value_register : Bool
  pub function_name : Text

pub record Catcher : Type 0 where
  pub caught_type : Text
  pub catcher_name : Text
  pub block_address : Address

pub record TryFrame : Type 0 where
  pub try_return_address : Address
  pub associated_frame : Option Pointer
  pub block_name : Text
  pub catchers : List (Text × Catcher)

-- What `uregset` points to: the global registers, those of a frame, or those of a function.
pub data Selected : Type 0 where
  nothing global : Selected
  local : Pointer → Selected
  static : Text → Selected

-- The type system gives the ancestors of each prototype. The vectors `frames` and `tryframes`
-- are listed from their back. `global_regset` is `regset`: null, or deleted, where there is none.
pub record Cpu : Type 0 where
  pub memory : Address → ℕ
  pub bytecode : Address
  pub bytecode_size : ℕ
  pub executable_offset : ℕ
  pub global_regset : Option RegisterSet
  pub uregset : Selected
  pub tmp : Option Pointer
  pub static_registers : List (Text × RegisterSet)
  pub typesystem : List (Text × List Text)
  pub frames : List Frame
  pub frame_new : Option Frame
  pub tryframes : List TryFrame
  pub try_frame_new : Option TryFrame
  pub jump_base : Address
  pub function_addresses : List (Text × ℕ)
  pub block_addresses : List (Text × ℕ)
  pub linked_functions : List (Text × (Text × Address))
  pub linked_blocks : List (Text × (Text × Address))
  pub linked_modules : List (Text × (ℕ × Address))
  pub thrown : Option Pointer
  pub caught : Option Pointer
  pub return_code : Word
  pub return_exception : Text
  pub instruction_counter : ℕ
  pub instruction_pointer : Address
  pub objects : List (Pointer × Object)
  pub cells : List (Pointer × Option Pointer)
  pub next : Pointer
  pub output : List Text
  pub effects : List Effect

-- Why an exception is raised: `new Exception(…)`, by what it complains of, or a `const char*`.
pub data Cause : Type 0 where
  register_error : RegisterError → Cause
  stack_size_exceeded call_without_frame undefined_function unregistered_function : Cause
  return_value_not_set nothing_to_end parameter_out_of_bounds argument_out_of_bounds : Cause
  undefined_handler undefined_block nothing_caught throw_out_of_bounds throw_empty : Cause
  bad_leave jump_to_itself illegal_register_set : Cause
  frame_unused block_frame_unused unrecognised_instruction : Cause

-- An exception that `tick` passes to the program, the exception of `halt`, a C++ exception that
-- nothing catches, and undefined behaviour.
pub data Stop : Type 0 where
  raises : Cause → Stop
  halts escapes undefined : Stop

abbrev pub Exec {ℓ} : Type ℓ → Type ℓ
Exec A = Cpu → Result (Stop × Cpu) (A × Cpu)

infixl 5 ◌>>=◌ ◌>>◌
unfoldable pub ◌>>=◌ {ℓ κ} : {A : Type ℓ} {B : Type κ} → Exec A → (A → Exec B) → Exec B
(m >>= f) s = elim (m s) [ ok r ↦ f r.0 r.1 | err e ↦ err e ]

unfoldable pub ◌>>◌ {κ} : {B : Type κ} → Exec (Unit {0}) → Exec B → Exec B
m >> k = m >>= λ _. k

unfoldable pub pure {ℓ} : {A : Type ℓ} → A → Exec A
pure a s = ok (a, s)

unfoldable pub stop {ℓ} : {A : Type ℓ} → Stop → Exec A
stop e s = err (e, s)

-- A step that returns is followed by the rest; one that is stopped stops the whole.
module _ {ℓ κ} {A : Type ℓ} {B : Type κ} (m : Exec A) (f : A → Exec B) (s : Cpu) where
  pub >>=_ok : (a : A) (t : Cpu) → m s ≡ ok (a, t) → (m >>= f) s ≡ f a t
  unfolding ◌>>=◌
  >>=_ok a t e = ap (λ r. elim r [ ok x ↦ f x.0 x.1 | err y ↦ err y ]) e

  pub >>=_err : (y : Stop × Cpu) → m s ≡ err y → (m >>= f) s ≡ err y
  unfolding ◌>>=◌
  >>=_err y e = ap (λ r. elim r [ ok x ↦ f x.0 x.1 | err z ↦ err z ]) e

-- `throw new Exception(…)`
unfoldable pub raise {ℓ} : {A : Type ℓ} → Cause → Exec A
raise c s = err (raises c, s)

unfoldable pub read : Exec Cpu
read s = ok (s, s)

unfoldable pub modify : (Cpu → Cpu) → Exec (Unit {0})
modify f s = ok (tt, f s)

-- `if (not condition) { throw new Exception(…); }`
unfoldable pub require : Bool → Cause → Exec (Unit {0})
require true c s = ok (tt, s)
require false c s = err (raises c, s)

-- Dereferencing a pointer: null is undefined behaviour.
unfoldable pub deref {ℓ} : {A : Type ℓ} → Option A → Exec A
deref (some a) s = ok (a, s)
deref none s = err (undefined, s)

-- A step for each of the cases of an optional value.
abbrev pub maybe {ℓ κ} : {A : Type ℓ} {B : Type κ} → Option B → Exec A → (B → Exec A) → Exec A
maybe none m f = m
maybe (some b) m f = f b

-- `m.at(key)` of a map: `std::out_of_range`, which `tick` does not catch.
unfoldable pub at_key {ℓ} : {A : Type ℓ} → Option A → Exec A
at_key (some a) s = ok (a, s)
at_key none s = err (escapes, s)

-- A map keyed by strings, newest entry first, and one keyed by addresses.
unfoldable pub lookup {ℓ} : {A : Type ℓ} → Text → List (Text × A) → Option A
lookup name [] = none
lookup name ((key, a) ∷ rest) =
    let later = lookup name rest in if key =ᵗ name then some a else later

unfoldable pub lookup_at {ℓ} : {A : Type ℓ} → Pointer → List (Pointer × A) → Option A
lookup_at p [] = none
lookup_at p ((key, a) ∷ rest) = let later = lookup_at p rest in if key == p then some a else later

-- `m.count(key)`
abbrev pub is_some {ℓ} : {A : Type ℓ} → Option A → Bool
is_some (some a) = true
is_some none = false

-- `frames.size() == 0`, of a vector.
unfoldable pub is_empty {ℓ} : {A : Type ℓ} → List A → Bool
is_empty [] = true
is_empty (x ∷ rest) = false

-- The frame at an address, on the call stack.
unfoldable pub find_frame : Pointer → List Frame → Option Frame
find_frame p [] = none
find_frame p (f ∷ rest) = let later = find_frame p rest in if f.this == p then some f else later

unfoldable pub put_regset : Pointer → RegisterSet → List Frame → List Frame
put_regset p rs [] = []
put_regset p rs (f ∷ rest) =
    let later = put_regset p rs rest in
    if f.this == p then record f { regset = rs } ∷ rest else f ∷ later

-- `*uregset`
unfoldable pub selected_regset : Selected → Cpu → Option RegisterSet
selected_regset nothing s = none
selected_regset global s = s.global_regset
selected_regset (local p) s = elim (find_frame p s.frames) [ none ↦ none | some f ↦ some f.regset ]
selected_regset (static name) s = lookup name s.static_registers

unfoldable pub used : Cpu → Option RegisterSet
used s = selected_regset s.uregset s

unfoldable pub with_selected : Selected → RegisterSet → Cpu → Cpu
with_selected nothing rs s = s
with_selected global rs s = record s { global_regset = some rs }
with_selected (local p) rs s = record s { frames = put_regset p rs s.frames }
with_selected (static name) rs s = record s { static_registers = (name, rs) ∷ s.static_registers }

unfoldable pub with_used : RegisterSet → Cpu → Cpu
with_used rs s = with_selected s.uregset rs s
