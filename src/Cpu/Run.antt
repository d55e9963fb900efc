-- ===== src/Cpu/Run.antt =====
-- src/cpu/cpu.cpp: `iframe`, `begin` and `run`.
use viuavm.Common.{
  ◌++◌, List, ℕ, ◌+◌, ◌==◌, Bool, true, false, if◌then◌else◌, List, [], Option, none, some, ◌∷◌,
  Text, codes,
}
use viuavm.Cpu.RegisterSet.{destroy, RegisterSet, Pointer, at, register_set, with_register}
use viuavm.Cpu.Machine.{
  Stop, Cpu, stop, is_empty, Frame, Object, Exec, Cause, Selected, ◌>>=◌, ◌>>◌, pure, read, modify,
  deref, maybe,
}
use viuavm.Cpu.Machine.Objects.{new_object, object_at, integer_of, lift}
use viuavm.Cpu.Dispatch.{Host}
use viuavm.Cpu.Tick.{ticks}
use viuavm.Cpu.Frames.{frame_deletes, listed}

unfoldable pub default_register_size : ℕ
default_register_size = 256

-- The frame that the program starts in; the command line is in register 1.
unfoldable pub entry_frame : Pointer → Pointer → Frame
entry_frame address cmdline = record {
  this = address;
  return_address = 0;
  args = register_set 0;
  regset = with_register 1 (some cmdline) (register_set 2);
  place_return_value_in = 0;
  resolve_return_value_register = false;
  function_name = codes "__entry";
}

-- The end of `CPU::iframe`.
unfoldable pub start_in : ℕ → Frame → Exec (Unit {0})
start_in r f = modify λ t. record t {
  global_regset = some (register_set r);
  uregset = Selected.local f.this;
  frames = f ∷ t.frames;
}

-- `delete regset;`, which a null pointer allows.
unfoldable pub delete_regset : Exec (Unit {0})
delete_regset = do
  s ← read
  maybe s.global_regset (pure tt)
      λ rs. modify λ t. record t { global_regset = none; effects = listed (destroy rs) t.effects }

-- `CPU::iframe`. The vector of the command line's arguments is true if it is not empty.
unfoldable pub iframe : Bool → Option Frame → ℕ → Exec (Unit {0})
iframe has_arguments (some frm) r = do delete_regset; start_in r frm
iframe has_arguments none r = do
  cmdline ← new_object (Object.instance_of (codes "Vector") has_arguments)
  s ← read
  modify (λ t. record t { next = t.next + 1 })
  start_in r (entry_frame s.next cmdline)

-- `CPU::begin`
unfoldable pub begin : Exec (Unit {0})
begin = modify λ t. record t { instruction_pointer = t.bytecode + t.executable_offset }

unfoldable pub set_code : Object → Exec (Unit {0})
set_code o = do n ← deref (integer_of o); modify (λ t. record t { return_code = n })

-- The return code that the program leaves in global register 0, unless one is set.
unfoldable pub exit_code : Exec (Unit {0})
exit_code = do
  s ← read
  rs ← deref s.global_regset
  p ← lift (at rs 0)
  maybe p (pure tt) λ q. if s.return_code == 0 then (object_at q >>= set_code) else pure tt

-- `delete frames.back(); delete regset;`. The pointers to both stay behind, and lead to nothing: the
-- frame is not listed any more, and `global_regset` is empty.
unfoldable pub released : Frame → List Frame → RegisterSet → Cpu → Cpu
released f rest rs s = record s {
  frames = rest;
  global_regset = none;
  effects = listed (frame_deletes f ++ destroy rs) s.effects;
}

-- `back()` of an empty vector is undefined.
unfoldable pub release_from : List Frame → Exec (Unit {0})
release_from [] = stop Stop.undefined
release_from (f ∷ rest) = do s ← read; rs ← deref s.global_regset; modify (released f rest rs)

-- `if (return_exception == "")`
unfoldable pub release : Exec (Unit {0})
release = do s ← read; if is_empty s.return_exception then release_from s.frames else pure tt

-- `CPU::run`, for a number of rounds: has it finished? Until then nothing is released.
module _ (host : Host) (message : Cause → Text) where
  unfoldable pub run_from_start : ℕ → Exec Bool
  run_from_start rounds = do
    begin
    running ← ticks host message rounds
    if running then pure false else (exit_code >> pure true)

  unfoldable pub run_to_end : Bool → ℕ → Exec Bool
  run_to_end has_arguments rounds = do
    iframe has_arguments none default_register_size
    run_from_start rounds

  unfoldable pub run : Bool → ℕ → Exec Bool
  run has_arguments rounds = do
    finished ← run_to_end has_arguments rounds
    if finished then (release >> pure true) else pure false
