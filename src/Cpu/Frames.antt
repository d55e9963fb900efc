-- ===== src/Cpu/Frames.antt =====
-- src/cpu/cpu.cpp and src/cpu/instr/calls.cpp: the call stack, and the instructions that call, pass
-- arguments and return.
pub mod Calls
pub mod Arguments
pub mod Returning
use viuavm.Common.{
  ◌++◌, not, leb, ◌==◌, ℕ, ◌+◌, Bool, true, false, if◌then◌else◌, Option, none, some, List, [], ◌∷◌,
  ltb, length, Text,
}
use viuavm.Common.Throw.{ok, err}
use viuavm.Cpu.RegisterSet.{
  RegisterSet, Pointer, register_set, isflagged, reference_mask, at, get, flag, Effect, Thrown,
  drop, destroy,
}
use viuavm.Cpu.Machine.{
  is_empty, maybe, require, Cpu, Frame, Exec, Stop, Cause, Word, Address, Selected, ◌>>=◌, ◌>>◌,
  pure, stop, raise, read, modify, deref, at_key, lookup, find_frame, is_some,
}
use viuavm.Cpu.Machine.Objects.{registers, lift, on_registers, copy_object, place}
use viuavm.Cpu.Machine.Operands.{resolve}

unfoldable pub max_stack_size : ℕ
max_stack_size = 8192

-- `CPU::requestNewFrame`
unfoldable pub request_new_frame : ℕ → ℕ → Exec (Unit {0})
request_new_frame arguments_size registers_size s = elim s.frame_new [
  | some f ↦ raise Cause.frame_unused s
  | none ↦ ok (
    tt,
    record s {
      next = s.next + 1;
      frame_new = some (record {
        this = s.next;
        return_address = 0;
        args = register_set arguments_size;
        regset = register_set registers_size;
        place_return_value_in = 0;
        resolve_return_value_register = false;
        function_name = [];
      });
    },
  )
]

-- The end of `CPU::pushFrame`, which a frame that is on the stack already does not reach.
unfoldable pub push_new : Frame → Exec (Unit {0})
push_new f s =
    if is_some (find_frame f.this s.frames)
    then stop Stop.escapes s
    else ok (tt, record s { frames = f ∷ s.frames; frame_new = none })

-- `uregset = frame_new->regset` comes before that test.
unfoldable pub push_top : Exec (Unit {0})
push_top = do
  s ← read
  f ← deref s.frame_new
  modify (λ t. record t { uregset = Selected.local f.this })
  push_new f

-- `CPU::pushFrame`. The name of the function and its arguments are read only for the message.
unfoldable pub push_frame : Exec (Unit {0})
push_frame s =
    if ltb max_stack_size (length s.frames) then raise Cause.stack_size_exceeded s else push_top s

-- The registers in use when these are the frames.
unfoldable pub current : List Frame → Selected
current [] = Selected.global
current (f ∷ rest) = Selected.local f.this

-- `delete frame`: the destructor drops the arguments, which throws for no register, and deletes both
-- register sets, whose destructors delete the objects in them that no flag protects.
unfoldable pub frame_deletes : Frame → List Effect
frame_deletes f = args_delete (drop f.args) ++ destroy f.regset
  where
    args_delete : Thrown RegisterSet → List Effect
    args_delete (ok args) = destroy args
    args_delete (err e) = []

-- The newest effect comes first.
abbrev pub listed : List Effect → List Effect → List Effect
listed [] effects = effects
listed (e ∷ es) effects = listed es (e ∷ effects)

-- `CPU::dropFrame`, on a stack that is not empty.
unfoldable pub drop_top : List Frame → Exec (Unit {0})
drop_top [] = stop Stop.undefined
drop_top (f ∷ rest) = modify λ t. record t {
  frames = rest;
  uregset = current rest;
  effects = listed (frame_deletes f) t.effects;
}

unfoldable pub drop_frame : Exec (Unit {0})
drop_frame = do s ← read; drop_top s.frames

-- `frames.back()`
unfoldable pub back : List Frame → Option Frame
back [] = none
back (f ∷ rest) = some f

unfoldable pub frames_back : Exec Frame
frames_back = do s ← read; deref (back s.frames)

-- The object in register 0, or a copy of it unless it is marked as a reference.
unfoldable pub value_in : RegisterSet → Pointer → Exec (Option Pointer × Bool)
value_in rs p = do
  flagged ← lift (isflagged rs 0 reference_mask)
  if flagged then pure (some p, true) else do q ← copy_object p; pure (some q, false)

-- The value that a function returns, which register 0 holds, and whether it is a reference.
unfoldable pub returned_value : Word → Exec (Option Pointer × Bool)
returned_value return_value_register = if return_value_register == 0 then pure (none, false) else do
  rs ← registers
  p ← lift (at rs 0)
  maybe p (raise Cause.return_value_not_set) (value_in rs)

-- `if (returned and frames.size() > 0)` and its branch.
unfoldable pub place_returned : Option Pointer × Bool → Word → Bool → Exec (Unit {0})
place_returned (none, is_ref) index ref = pure tt
place_returned (some p, is_ref) index ref = do
  s ← read
  if is_empty s.frames then pure tt else do
    target ← resolve (ref, index)
    place target (some p)
    if is_ref then on_registers (λ rs. flag rs target reference_mask) else pure tt

-- The end of `CPU::end`, `CPU::callForeign` and `CPU::callForeignMethod`: the return value is taken
-- from the frame that is dropped and placed in a register of the frame below.
unfoldable pub return_value : Exec (Unit {0})
return_value = do
  top ← frames_back
  returned ← returned_value top.place_return_value_in
  drop_frame
  place_returned returned top.place_return_value_in top.resolve_return_value_register

-- The code of the module that a function is linked from.
unfoldable pub linked_code : Text → Exec Address
linked_code name = do
  s ← read
  linked ← at_key (lookup name s.linked_functions)
  entry ← at_key (lookup linked.0 s.linked_modules)
  pure entry.1

-- The code that jumps are counted from, for a function that is linked statically or dynamically.
unfoldable pub code_of : Text → Exec Address
code_of name = do
  s ← read
  maybe (lookup name s.function_addresses) (linked_code name) λ a. pure s.bytecode

-- `if (frames.size() > 0) { … jump_base = …; }`, as `end` and `leave` end.
unfoldable pub jump_from : Option Frame → Exec (Unit {0})
jump_from none = pure tt
jump_from (some f) = do base ← code_of f.function_name; modify (λ t. record t { jump_base = base })

unfoldable pub restore_jump_base : Exec (Unit {0})
restore_jump_base = do s ← read; jump_from (back s.frames)

-- `CPU::end`
unfoldable pub end : Exec Address
end = do
  s ← read
  require (not (is_empty s.frames)) Cause.nothing_to_end
  top ← frames_back
  return_value
  restore_jump_base
  pure top.return_address
