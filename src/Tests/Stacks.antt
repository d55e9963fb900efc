-- ===== src/Tests/Stacks.antt =====
-- The theorems on the call stack and the try frames, at small stacks.
use viuavm.Common.{◌≡◌, refl, arith, true, false, none, some, [], ◌∷◌, Text, codes, ◌=ᵗ◌}
use viuavm.Common.Throw.{ok}
use viuavm.Cpu.RegisterSet.{
  Pointer, Effect, register_set, with_register, drop, drop_loop, destroy, destroy_loop,
}
use viuavm.Cpu.Machine.{
  Cpu, Frame, TryFrame, Catcher, Object, Selected, lookup, lookup_at, find_frame, ◌>>=◌,
}
use viuavm.Cpu.Frames.{end, frame_deletes}
use viuavm.Cpu.Frames.Calls.{call_native}
use viuavm.Cpu.Frames.Returning.{call_native-end}
use viuavm.Cpu.Tick.{is_associated, catcher_for, handle_thrown}
use viuavm.Cpu.Tick.Unwinding.{handle_thrown-unwound}
use viuavm.Cpu.Tick.Detailed.{handle_thrown-not_unwound}
use viuavm.Tests.Machine.{idle}
use viuavm.Cpu.Machine.Objects.{type_of}

abbrev frame_at : Pointer → Text → Frame
frame_at p name = record {
  this = p;
  return_address = 0;
  args = register_set 0;
  regset = register_set 2;
  place_return_value_in = 0;
  resolve_return_value_register = false;
  function_name = name;
}

abbrev entry : Frame
entry = frame_at 10 (codes "__entry")

abbrev main : Frame
main = frame_at 20 (codes "main")

-- Its register 1 has an object.
abbrev callee : Frame
callee = let f = frame_at 30 (codes "f") in record f { regset = with_register 1 (some 7) f.regset }

call_native-end_example :
    (call_native 101 (codes "f") false 0 [] >>= λ target. end) (record idle {
      frames = main ∷ (entry ∷ []);
      uregset = Selected.local 20;
      jump_base = 100;
      frame_new = some callee;
    })
    ≡ ok (
      103,
      record idle {
        frames = main ∷ (entry ∷ []);
        uregset = Selected.local 20;
        jump_base = 100;
        frame_new = none;
        effects = Effect.deletes 7 ∷ [];
      },
    )
unfolding lookup ◌=ᵗ◌ find_frame frame_deletes drop drop_loop destroy destroy_loop register_set
call_native-end_example =
    call_native-end idle callee main (entry ∷ []) 101 (codes "f") false 6 0 refl refl (omega arith)
      refl

abbrev catcher : Catcher
catcher = record { caught_type = codes "T"; catcher_name = codes "handle"; block_address = 104 }

abbrev guarded : TryFrame
guarded = record {
  try_return_address = 103;
  associated_frame = some 20;
  block_name = codes "block";
  catchers = (codes "T", catcher) ∷ [];
}

abbrev unguarded : TryFrame
unguarded = record guarded { associated_frame = some 30; catchers = [] }

abbrev throwing : Cpu
throwing = record idle { objects = (5, Object.instance_of (codes "T") true) ∷ [] }

handle_thrown-unwound_example :
    handle_thrown (record throwing {
      frames = callee ∷ (main ∷ (entry ∷ []));
      tryframes = unguarded ∷ (guarded ∷ []);
      thrown = some 5;
    })
    ≡ ok (
      some 104,
      record throwing {
        instruction_pointer = 104;
        frames = main ∷ (entry ∷ []);
        uregset = Selected.local 20;
        tryframes = guarded ∷ [];
        caught = some 5;
        thrown = none;
        effects = Effect.deletes 7 ∷ [];
      },
    )
unfolding lookup_at lookup ◌=ᵗ◌ catcher_for is_associated frame_deletes drop drop_loop destroy
    destroy_loop register_set type_of
handle_thrown-unwound_example =
    handle_thrown-unwound 5 (Object.instance_of (codes "T") true) (codes "T") (unguarded ∷ [])
      guarded [] catcher (callee ∷ []) main entry [] throwing refl refl refl refl (refl, tt) refl
      (refl, tt) refl

abbrev failing : Cpu
failing = record idle { objects = (5, Object.exception (codes "T") (codes "why")) ∷ [] }

handle_thrown-not_unwound_example :
    handle_thrown (record failing { tryframes = unguarded ∷ (guarded ∷ []); thrown = some 5 })
    ≡ ok (
      some 104,
      record failing {
        tryframes = unguarded ∷ (guarded ∷ []);
        instruction_pointer = 104;
        caught = some 5;
        thrown = none;
      },
    )
unfolding lookup_at lookup ◌=ᵗ◌ catcher_for
handle_thrown-not_unwound_example =
    handle_thrown-not_unwound 5 (codes "T") (codes "why") (unguarded ∷ []) guarded [] catcher
      failing refl (refl, tt) refl
