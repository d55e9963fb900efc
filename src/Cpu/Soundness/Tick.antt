-- ===== src/Cpu/Soundness/Tick.antt =====
-- src/cpu/cpu.cpp and src/cpu/dispatch.cpp: running instructions and handling what they throw keeps the
-- machine sound.
use viuavm.Common.{ℕ, zero, suc, List, [], ◌∷◌, Text}
use viuavm.Common.Throw.{Result, ok, err}
use viuavm.Cpu.RegisterSet.{Pointer}
use viuavm.Cpu.Machine.{TryFrame, Object, Exec, modify}
use viuavm.Cpu.Inheritance.{ChainError, finished, inheritance_chain_of}
use viuavm.Cpu.Tick.{
  Handler, drop_frames, catch_thrown, jump_to_handler, unwind_to_handler, type_name, thrown_type,
  catch_etype, first_pass, catcher_by_ancestor, catcher_by_type, find_by_type, second_pass,
  if_thrown, uncaught, handle_thrown,
}
use viuavm.Cpu.Soundness.{Keeps-pure, Keeps-option, Keeps, Keeps-modify, Keeps-bind, Keeps-then}
use viuavm.Cpu.Soundness.Frames.{Keeps-drop_frame}
use viuavm.Cpu.Soundness.Calls.{call_rules}

pub Keeps-drop_frames : (n : ℕ) → Keeps (drop_frames n)
unfolding drop_frames
Keeps-drop_frames zero = search call_rules
Keeps-drop_frames (suc n) = Keeps-then _ _ Keeps-drop_frame (Keeps-drop_frames n)

Keeps-catch_thrown : Keeps (modify catch_thrown)
unfolding catch_thrown
Keeps-catch_thrown = Keeps-modify _ λ s h. h

pub Keeps-jump_to_handler : (h : Handler) → Keeps (jump_to_handler h)
unfolding jump_to_handler
Keeps-jump_to_handler (c, rest) = search (call_rules, Keeps-catch_thrown)

pub Keeps-unwind_to_handler : (h : Handler) → Keeps (unwind_to_handler h)
unfolding unwind_to_handler
Keeps-unwind_to_handler (c, (t, rest)) =
    search (call_rules, Keeps-drop_frames, Keeps-catch_thrown) depth 10

pub Keeps-type_name : (o : Object) → Keeps (type_name o)
unfolding type_name
Keeps-type_name (Object.reference c) = search call_rules depth 8
Keeps-type_name _ = search call_rules

pub Keeps-thrown_type : (p : Pointer) → Keeps (thrown_type p)
unfolding thrown_type
Keeps-thrown_type p = search (call_rules, Keeps-type_name)

pub Keeps-catch_etype : (p : Pointer) → Keeps (catch_etype p)
unfolding catch_etype
Keeps-catch_etype p = search (call_rules, Keeps-jump_to_handler) depth 8

pub Keeps-first_pass : (p : Pointer) → Keeps (first_pass p)
unfolding first_pass
Keeps-first_pass p = search (call_rules, Keeps-thrown_type, Keeps-catch_etype)

pub Keeps-finished : (r : Result ChainError (List Text)) → Keeps (finished r)
unfolding finished
Keeps-finished (ok chain) = search call_rules
Keeps-finished (err ChainError.unknown_type) = search call_rules
Keeps-finished (err ChainError.unfinished) = search call_rules

pub Keeps-inheritance_chain_of : (name : Text) → Keeps (inheritance_chain_of name)
unfolding inheritance_chain_of
Keeps-inheritance_chain_of name = search (call_rules, Keeps-finished)

pub Keeps-catcher_by_ancestor : (name : Text) (t : TryFrame) → Keeps (catcher_by_ancestor name t)
unfolding catcher_by_ancestor
Keeps-catcher_by_ancestor name t = search (call_rules, Keeps-inheritance_chain_of) depth 8

pub Keeps-catcher_by_type : (name : Text) (t : TryFrame) → Keeps (catcher_by_type name t)
unfolding catcher_by_type
Keeps-catcher_by_type name t = search (call_rules, Keeps-catcher_by_ancestor)

pub Keeps-find_by_type : (name : Text) (ts : List TryFrame) → Keeps (find_by_type name ts)
unfolding find_by_type
Keeps-find_by_type name [] = search call_rules
Keeps-find_by_type name (t ∷ rest) =
    Keeps-bind _ _ (Keeps-catcher_by_type name t)
      λ c. Keeps-option c _ _ (Keeps-find_by_type name rest) λ k. Keeps-pure _

pub Keeps-second_pass : (p : Pointer) → Keeps (second_pass p)
unfolding second_pass
Keeps-second_pass p =
    search (call_rules, Keeps-thrown_type, Keeps-find_by_type, Keeps-unwind_to_handler) depth 8

pub Keeps-if_thrown :
    (f : Pointer → Exec (Unit {0})) → ((p : Pointer) → Keeps (f p)) → Keeps (if_thrown f)
unfolding if_thrown
Keeps-if_thrown f kf = search call_rules

pub Keeps-uncaught : (p : Pointer) → Keeps (uncaught p)
unfolding uncaught
Keeps-uncaught p = search (call_rules, Keeps-thrown_type)

pub Keeps-handle_thrown : Keeps handle_thrown
unfolding handle_thrown
Keeps-handle_thrown =
    search (call_rules, Keeps-if_thrown, Keeps-first_pass, Keeps-second_pass, Keeps-uncaught) depth
      8
