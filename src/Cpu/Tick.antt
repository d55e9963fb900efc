-- ===== src/Cpu/Tick.antt =====
-- src/cpu/cpu.cpp: `tick`, which runs one instruction and passes what was thrown to a handler; `run`.
pub mod Unwinding
pub mod Detailed
use viuavm.Common.{
  ℕ, zero, suc, ◌+◌, ◌==◌, ◌&&◌, ◌||◌, not, Bool, true, false, if◌then◌else◌, Option, none, some,
  List, [], ◌∷◌, leb, ltb, length, Text, codes, ◌=ᵗ◌,
}
use viuavm.Common.Throw.{Result, ok, err}
use viuavm.Bytecode.Opcode.{Opcode, to_byte}
use viuavm.Cpu.RegisterSet.{Pointer, at, register_set, set as set_in}
use viuavm.Cpu.Machine.{
  is_empty, maybe, Cpu, Frame, TryFrame, Catcher, Object, Exec, Stop, Cause, Address, Word,
  Selected, ◌>>=◌, ◌>>◌, pure, stop, raise, read, modify, deref, lookup, lookup_at, is_some,
}
use viuavm.Cpu.Machine.Objects.{
  registers, lift, new_object, object_at, points_to, type_of, integer_of,
}
use viuavm.Cpu.Frames.{drop_frame}
use viuavm.Cpu.Inheritance.{inheritance_chain_of}
use viuavm.Cpu.Dispatch.{Host, dispatch}

-- The handler that is found, with the try frames from its own on.
abbrev pub Handler : Type 0
Handler = Catcher × (TryFrame × List TryFrame)

-- `for (i = tryframes.size(); i > 0; --i)`, until one has a catcher.
unfoldable pub find_handler : (TryFrame → Option Catcher) → List TryFrame → Option Handler
find_handler catcher_of [] = none
find_handler catcher_of (t ∷ rest) =
    let outer = find_handler catcher_of rest in
    elim (catcher_of t) [ none ↦ outer | some c ↦ some (c, (t, rest)) ]

-- `tframe->catchers.count(type)`, then `at`.
unfoldable pub catcher_for : Text → TryFrame → Option Catcher
catcher_for name t = lookup name t.catchers

-- The first of the types that the frame catches.
unfoldable pub catcher_among : List Text → TryFrame → Option Catcher
catcher_among [] t = none
catcher_among (name ∷ names) t =
    let later = catcher_among names t in
    elim (catcher_for name t) [ none ↦ later | some c ↦ some c ]

-- `frames[j] == tframe->associated_frame`
unfoldable pub is_associated : TryFrame → Frame → Bool
is_associated t f = elim t.associated_frame [ none ↦ false | some p ↦ f.this == p ]

-- `for (j = frames.size()-1; j > 1; --j)`: how many frames are above the associated one. The two that
-- are at the bottom are not looked at.
unfoldable pub distance : TryFrame → List Frame → ℕ
distance t [] = 0
distance t (f ∷ rest) =
    let deeper = distance t rest in
    if ltb (length rest) 2 then 0 else if is_associated t f then 0 else suc deeper

unfoldable pub drop_frames : ℕ → Exec (Unit {0})
drop_frames zero = pure tt
drop_frames (suc n) = drop_frame >> drop_frames n

-- `caught = thrown; thrown = nullptr;`
unfoldable pub catch_thrown : Cpu → Cpu
catch_thrown s = record s { caught = s.thrown; thrown = none }

-- The first pass: a catcher for the detailed type of an exception gets control at once.
unfoldable pub jump_to_handler : Handler → Exec (Unit {0})
jump_to_handler (c, tframes) = do
  modify (λ t. record t { instruction_pointer = c.block_address })
  modify catch_thrown

-- The second pass: the frames above that of the handler are dropped, and the try frames above its own.
unfoldable pub unwind_to_handler : Handler → Exec (Unit {0})
unwind_to_handler (c, (t, rest)) = do
  modify (λ u. record u { instruction_pointer = c.block_address })
  s ← read
  drop_frames (distance t s.frames)
  modify (λ u. record u { tryframes = t ∷ rest })
  modify catch_thrown

-- `thrown->type()`; a reference asks its object.
unfoldable pub type_name : Object → Exec Text
type_name (Object.reference c) = do
  target ← points_to c
  q ← deref target
  o ← object_at q
  deref (type_of o)
type_name o = deref (type_of o)

unfoldable pub thrown_type : Pointer → Exec Text
thrown_type p = do o ← object_at p; type_name o

-- `static_cast<Exception*>(thrown)->etype()`
unfoldable pub etype_of : Object → Option Text
etype_of (Object.exception etype cause) = some etype
etype_of _ = none

-- The first pass over the try frames.
unfoldable pub catch_etype : Pointer → Exec (Unit {0})
catch_etype p = do
  o ← object_at p
  etype ← deref (etype_of o)
  s ← read
  maybe (find_handler (catcher_for etype) s.tryframes) (pure tt) jump_to_handler

-- It is for exceptions only.
unfoldable pub first_pass : Pointer → Exec (Unit {0})
first_pass p = do name ← thrown_type p; if name =ᵗ codes "Exception" then catch_etype p else pure tt

unfoldable pub catcher_by_ancestor : Text → TryFrame → Exec (Option Catcher)
catcher_by_ancestor name t = do
  s ← read
  maybe (lookup name s.typesystem) (pure none) λ ancestors. do
    types_to_check ← inheritance_chain_of name
    pure (catcher_among types_to_check t)

-- The catcher of a frame for a type, or for one that it is derived from.
unfoldable pub catcher_by_type : Text → TryFrame → Exec (Option Catcher)
catcher_by_type name t = maybe (catcher_for name t) (catcher_by_ancestor name t) λ c. pure (some c)

unfoldable pub find_by_type : Text → List TryFrame → Exec (Option Handler)
find_by_type name [] = pure none
find_by_type name (t ∷ rest) = do
  c ← catcher_by_type name t
  maybe c (find_by_type name rest) λ catcher. pure (some (catcher, (t, rest)))

-- The second pass.
unfoldable pub second_pass : Pointer → Exec (Unit {0})
second_pass p = do
  name ← thrown_type p
  s ← read
  h ← find_by_type name s.tryframes
  maybe h (pure tt) unwind_to_handler

-- `if (thrown != nullptr)`
unfoldable pub if_thrown : (Pointer → Exec (Unit {0})) → Exec (Unit {0})
if_thrown f = do s ← read; maybe s.thrown (pure tt) f

-- Nothing took what was thrown: the machine stops, with the name of its type.
unfoldable pub uncaught : Pointer → Exec (Option Address)
uncaught p = do
  name ← thrown_type p
  modify (λ t. record t { return_code = 1; return_exception = name })
  pure none

-- The end of `tick`: the two passes, and the next instruction if nothing is left thrown.
unfoldable pub handle_thrown : Exec (Option Address)
handle_thrown = do
  if_thrown first_pass
  if_thrown second_pass
  s ← read
  maybe s.thrown (pure (some s.instruction_pointer)) uncaught

-- The function at the top of the call stack and the block entered last.
unfoldable pub top_function : List Frame → Text
top_function [] = []
top_function (f ∷ rest) = f.function_name

unfoldable pub top_block : List TryFrame → Text
top_block [] = []
top_block (t ∷ rest) = t.block_name

-- Is the code of the frame at the top, or of the block entered last, linked dynamically?
unfoldable pub is_dynamic : Cpu → Bool
is_dynamic s =
    is_some (lookup (top_function s.frames) s.linked_functions)
    || is_some (lookup (top_block s.tryframes) s.linked_blocks)

-- Did the instruction neither move on nor throw? An `end` may return to itself.
unfoldable pub is_stuck : Address → Cpu → Bool
is_stuck previous s =
    s.instruction_pointer == previous
    && not (s.memory previous == to_byte Opcode.end)
    && not (is_some s.thrown)

-- The checks between the instruction and the handlers.
unfoldable pub after_dispatch : Address → Exec (Option Address)
after_dispatch previous s =
    if is_empty s.frames
    then ok (none, s)
    else if leb (s.bytecode + s.bytecode_size) s.instruction_pointer && not (is_dynamic s)
    then ok (none, record s { return_code = 1; return_exception = codes "InvalidBytecodeAddress" })
    else if is_stuck previous s
    then ok (none, record s { return_code = 2; return_exception = codes "InstructionUnchanged" })
    else handle_thrown s

-- The machine, with the wording of its messages.
module _ (host : Host) (message : Cause → Text) where
  -- `thrown = new Exception(…)`
  unfoldable pub throw_exception : Cause → Exec (Unit {0})
  throw_exception c = do
    p ← new_object (Object.exception (codes "Exception") (message c))
    modify (λ t. record t { thrown = some p })

  -- `CPU::tick`: the next instruction, or a null pointer. What a handler changed before it threw stays
  -- changed.
  unfoldable pub tick : Exec (Option Address)
  tick s =
      let start = record s { instruction_counter = s.instruction_counter + 1 } in
      elim (dispatch host s.instruction_pointer start) [
        | ok (next_address, t) ↦
            after_dispatch s.instruction_pointer (record t { instruction_pointer = next_address })
        | err (Stop.halts, t) ↦ ok (none, t)
        | err (Stop.raises c, t) ↦ (throw_exception c >> after_dispatch s.instruction_pointer) t
        | err (Stop.escapes, t) ↦ err (Stop.escapes, t)
        | err (Stop.undefined, t) ↦ err (Stop.undefined, t)
      ]

  -- `while (tick()) {}`, for a number of rounds: is the machine still running?
  unfoldable pub ticks : ℕ → Exec Bool
  ticks zero = pure true
  ticks (suc n) = do next_address ← tick; maybe next_address (pure false) λ a. ticks n
