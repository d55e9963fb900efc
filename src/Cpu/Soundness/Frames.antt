-- ===== src/Cpu/Soundness/Frames.antt =====
-- src/cpu/cpu.cpp and src/cpu/instr/calls.cpp: calls, arguments and returns keep the machine sound.
use viuavm.Common.{
  true, ap, ℕ, ◌≤◌, ◌≡◌, refl, Bool, Option, none, some, List, [], ◌∷◌, length, Text, Bool-cases,
  inl, inr, arith, ltb,
}
use viuavm.Cpu.RegisterSet.{RegisterSet, Pointer}
use viuavm.Cpu.Machine.{
  Cpu, Frame, Word, Address, Selected, ◌>>=◌, ◌>>◌, modify, read, deref, stop, raise, is_some,
  find_frame,
}
use viuavm.Cpu.Frames.{
  linked_code, jump_from, drop_top, request_new_frame, push_new, push_top, push_frame,
  max_stack_size, current, drop_frame, frames_back, value_in, returned_value, place_returned,
  return_value, code_of, restore_jump_base, end,
}
use viuavm.Cpu.Soundness.{Keeps, Keeps-modify, IsSound, Selects, After}
use viuavm.Cpu.Soundness.Objects.{Keeps-lift, Keeps-registers, object_rules}

pub Keeps-request_new_frame : (a r : ℕ) → Keeps (request_new_frame a r)
unfolding request_new_frame raise
Keeps-request_new_frame a r = record { from = λ s h. ground arith }

current-Selects :
    (g : Option RegisterSet) (frames : List Frame) (statics : List (Text × RegisterSet))
    → is_some g ≡ true
    → Selects g (current frames) frames statics
unfolding current find_frame
current-Selects g [] statics h = h
current-Selects g (f ∷ rest) statics h = ground arith

-- A frame that is on the stack already is found there, so that the registers are there as well.
push_new-IsSound :
    (s : Cpu) (f : Frame)
    → is_some s.global_regset ≡ true
    → length s.frames ≤ 8192
    → After IsSound (push_new f (record s { uregset = Selected.local f.this }))
unfolding push_new stop find_frame
push_new-IsSound s f g b = elim (Bool-cases (is_some (find_frame f.this s.frames))) [
  | inl found ↦ rw found (record { bounded = omega arith; has_globals = g; selects = found })
  | inr new ↦ rw new (record { bounded = omega arith; has_globals = g; selects = ground arith })
]

push_some-IsSound :
    (o : Option Frame) (s : Cpu)
    → IsSound s
    → length s.frames ≤ 8192
    → After IsSound
        ((do f ← deref o; modify (λ t. record t { uregset = Selected.local f.this }); push_new f) s)
unfolding deref modify ◌>>=◌ ◌>>◌
push_some-IsSound none s h b = h
push_some-IsSound (some f) s h b = push_new-IsSound s f h.has_globals b

-- The stack is checked first, so that a frame is pushed on at most 8192.
push_top-IsSound : (s : Cpu) → IsSound s → length s.frames ≤ 8192 → After IsSound (push_top s)
unfolding push_top read ◌>>=◌
push_top-IsSound s h b = push_some-IsSound s.frame_new s h b

pub Keeps-push_frame : Keeps push_frame
unfolding push_frame max_stack_size raise
Keeps-push_frame = record {
  from = λ s h. elim (Bool-cases (ltb 8192 (length s.frames))) [
    | inl full ↦ rw full h
    | inr room ↦ rw room (push_top-IsSound s h (ground arith))
  ];
}

drop_top-IsSound :
    (frames : List Frame) (s : Cpu)
    → s.frames ≡ frames
    → IsSound s
    → After IsSound (drop_top frames s)
unfolding drop_top stop modify
drop_top-IsSound [] s e h = h
drop_top-IsSound (f ∷ rest) s e h = record {
  bounded = ground (arith, ap length e, h.bounded);
  has_globals = h.has_globals;
  selects = current-Selects s.global_regset rest s.static_registers h.has_globals;
}

pub Keeps-drop_frame : Keeps drop_frame
unfolding drop_frame read ◌>>=◌
Keeps-drop_frame = record { from = λ s h. drop_top-IsSound s.frames s refl h }

pub Keeps-frames_back : Keeps frames_back
unfolding frames_back
Keeps-frames_back = search object_rules

pub ruleset frame_rules =
    (object_rules, Keeps-request_new_frame, Keeps-push_frame, Keeps-drop_frame, Keeps-frames_back)

pub Keeps-value_in : (rs : RegisterSet) (p : Pointer) → Keeps (value_in rs p)
unfolding value_in
Keeps-value_in rs p = search frame_rules depth 8

pub Keeps-returned_value : (i : Word) → Keeps (returned_value i)
unfolding returned_value
Keeps-returned_value i = search (frame_rules, Keeps-value_in) depth 8

pub Keeps-place_returned :
    (r : Option Pointer × Bool) (i : Word) (ref : Bool) → Keeps (place_returned r i ref)
unfolding place_returned
Keeps-place_returned (none, b) i ref = search frame_rules
Keeps-place_returned (some p, b) i ref = search frame_rules depth 10

pub Keeps-return_value : Keeps return_value
unfolding return_value
Keeps-return_value = search (frame_rules, Keeps-returned_value, Keeps-place_returned) depth 10

pub Keeps-linked_code : (name : Text) → Keeps (linked_code name)
unfolding linked_code
Keeps-linked_code name = search frame_rules depth 8

pub Keeps-code_of : (name : Text) → Keeps (code_of name)
unfolding code_of
Keeps-code_of name = search (frame_rules, Keeps-linked_code) depth 8

pub Keeps-jump_base : (base : Address) → Keeps (modify (λ t. record t { jump_base = base }))
Keeps-jump_base base = Keeps-modify _ (λ s h. h)

pub Keeps-jump_from : (o : Option Frame) → Keeps (jump_from o)
unfolding jump_from
Keeps-jump_from none = search frame_rules
Keeps-jump_from (some f) = search (frame_rules, Keeps-code_of, Keeps-jump_base)

pub Keeps-restore_jump_base : Keeps restore_jump_base
unfolding restore_jump_base
Keeps-restore_jump_base = search (frame_rules, Keeps-jump_from)

pub Keeps-end : Keeps end
unfolding end
Keeps-end = search (frame_rules, Keeps-return_value, Keeps-restore_jump_base) depth 10
