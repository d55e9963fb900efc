-- ===== src/Cpu/Frames/Returning.antt =====
-- src/cpu/cpu.cpp and src/cpu/instr/calls.cpp: a call and the `end` of the function that it calls.
use viuavm.Common.{
  ℕ, ◌+◌, ◌≤◌, ◌≡◌, refl, ◌∙◌, Bool, false, Option, none, some, List, [], ◌∷◌, length, Text, le→ltb,
}
use viuavm.Common.Throw.{ok}
use viuavm.Cpu.Machine.{
  >>=_ok, Cpu, Frame, Word, Address, Selected, ◌>>=◌, ◌>>◌, pure, read, modify, deref, require,
  lookup, is_some, find_frame, is_empty,
}
use viuavm.Cpu.Frames.{
  listed, frame_deletes, push_new, push_top, push_frame, max_stack_size, current, drop_top,
  drop_frame, back, frames_back, returned_value, place_returned, return_value, code_of, jump_from,
  restore_jump_base, end,
}
use viuavm.Cpu.Frames.Calls.{after_name, prepare_frame, call_target, call_native}

-- The frame that a call prepares.
abbrev pub prepared : Frame → Text → Address → Bool → Word → Frame
prepared f name return_address ref index = record f {
  function_name = name;
  return_address = return_address;
  resolve_return_value_register = ref;
  place_return_value_in = index;
}

-- Pushing the new frame of a machine whose stack has room.
pub push_frame_lem :
    (s : Cpu) (f : Frame)
    → length s.frames ≤ 8192
    → is_some (find_frame f.this s.frames) ≡ false
    → push_frame (record s { frame_new = some f })
      ≡ ok (
        tt,
        record s { frames = f ∷ s.frames; frame_new = none; uregset = Selected.local f.this },
      )
unfolding push_frame push_top push_new max_stack_size read deref modify ◌>>=◌ ◌>>◌
push_frame_lem s f room new = rw (le→ltb 8192 (length s.frames) room, new) refl

call_target_lem :
    (s : Cpu) (o : Option Frame) (name : Text) (a : ℕ)
    → lookup name s.function_addresses ≡ some a
    → call_target name (record s { frame_new = o })
      ≡ ok ((s.bytecode + a, s.bytecode), record s { frame_new = o })
unfolding call_target read pure ◌>>=◌
call_target_lem s o name a found = rw found refl

-- A call of a function of the program itself, with a frame that has been prepared.
pub call_native_lem :
    (s : Cpu) (f : Frame) (addr : Address) (name : Text) (ref : Bool) (index : Word) (a : ℕ)
    → lookup name s.function_addresses ≡ some a
    → length s.frames ≤ 8192
    → is_some (find_frame f.this s.frames) ≡ false
    → call_native addr name ref index [] (record s { frame_new = some f })
      ≡ ok (
        s.bytecode + a,
        record s {
          jump_base = s.bytecode;
          frames = prepared f name (addr + (length name + 1)) ref index ∷ s.frames;
          frame_new = none;
          uregset = Selected.local f.this;
        },
      )
unfolding call_native call_target prepare_frame after_name read modify pure ◌>>=◌ ◌>>◌
call_native_lem s f addr name ref index a found room new =
    >>=_ok (call_target name) _ _ (s.bytecode + a, s.bytecode) _ (call_target_lem s _ name a found)
    ∙ >>=_ok push_frame _ _ tt _ (
        push_frame_lem (record s { jump_base = s.bytecode })
          (prepared f name (addr + (length name + 1)) ref index) room new)

-- What jumps are counted from, in a function of the program itself.
code_of_lem :
    (s : Cpu) (name : Text) (b : ℕ)
    → lookup name s.function_addresses ≡ some b
    → code_of name s ≡ ok (s.bytecode, s)
unfolding code_of read pure ◌>>=◌
code_of_lem s name b found = rw found refl

restore_jump_base_lem :
    (s : Cpu) (g : Frame) (rest : List Frame) (u : Selected) (b : ℕ)
    → lookup g.function_name s.function_addresses ≡ some b
    → restore_jump_base (record s { frames = g ∷ rest; uregset = u })
      ≡ ok (tt, record s { frames = g ∷ rest; uregset = u; jump_base = s.bytecode })
unfolding restore_jump_base jump_from back read modify ◌>>=◌
restore_jump_base_lem s g rest u b found =
    >>=_ok (code_of g.function_name) _ _ s.bytecode _
      (code_of_lem (record s { frames = g ∷ rest; uregset = u }) g.function_name b found)

-- The end of a function whose caller wants no value and is part of the program itself.
pub end_lem :
    (s : Cpu) (f g : Frame) (rest : List Frame) (name : Text) (addr : Address) (ref : Bool) (b : ℕ)
    → lookup g.function_name s.function_addresses ≡ some b
    → end (record s { frames = prepared f name addr ref 0 ∷ (g ∷ rest) })
      ≡ ok (
        addr,
        record s {
          frames = g ∷ rest;
          uregset = Selected.local g.this;
          jump_base = s.bytecode;
          effects = listed (frame_deletes f) s.effects;
        },
      )
unfolding frame_deletes end return_value returned_value drop_frame drop_top place_returned
    frames_back back current require read modify deref pure is_empty ◌>>=◌ ◌>>◌
end_lem s f g rest name addr ref b found = >>=_ok restore_jump_base _ _ tt _ (
    restore_jump_base_lem (record s { effects = listed (frame_deletes f) s.effects }) g rest
      (Selected.local g.this) b found)

-- A call that asks for no value, of a function of the program itself with a frame that has been
-- prepared, followed by the `end` of that function: control returns to the instruction after the
-- call, and the machine is as it was before the frame was prepared, but that the frame has been
-- deleted, and with it the objects in its registers that no flag protects. The stack has room, the
-- frame is not on it, and the caller is a function of the program that uses its own registers.
pub call_native-end :
    (s : Cpu) (f g : Frame) (rest : List Frame) (addr : Address) (name : Text) (ref : Bool)
    (a b : ℕ)
    → lookup name s.function_addresses ≡ some a
    → lookup g.function_name s.function_addresses ≡ some b
    → length (g ∷ rest) ≤ 8192
    → is_some (find_frame f.this (g ∷ rest)) ≡ false
    → (call_native addr name ref 0 [] >>= λ target. end) (record s {
      frames = g ∷ rest;
      uregset = Selected.local g.this;
      jump_base = s.bytecode;
      frame_new = some f;
    })
      ≡ ok (
        addr + (length name + 1),
        record s {
          frames = g ∷ rest;
          uregset = Selected.local g.this;
          jump_base = s.bytecode;
          frame_new = none;
          effects = listed (frame_deletes f) s.effects;
        },
      )
call_native-end s f g rest addr name ref a b found caller room new =
    let start = record s {
      frames = g ∷ rest;
      uregset = Selected.local g.this;
      jump_base = s.bytecode;
    } in
    let called = record s {
      frame_new = none;
      uregset = Selected.local f.this;
      jump_base = s.bytecode;
    } in
    >>=_ok (call_native addr name ref 0 []) _ _ (s.bytecode + a) _
      (call_native_lem start f addr name ref 0 a found room new)
    ∙ end_lem called f g rest name (addr + (length name + 1)) ref b caller
