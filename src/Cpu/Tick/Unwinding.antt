-- ===== src/Cpu/Tick/Unwinding.antt =====
-- src/cpu/cpu.cpp: where `tick` leaves the stacks when it passes a thrown object to a handler.
use viuavm.Common.{
  Option, ◌≡◌, refl, ◌∙◌, true, false, none, some, List, [], ◌∷◌, ◌++◌, length, length-append, Text,
  codes, arith, ◌=ᵗ◌, All,
}
use viuavm.Common.Throw.{ok}
use viuavm.Cpu.RegisterSet.{Pointer, Effect}
use viuavm.Cpu.Machine.{
  Cpu, Frame, TryFrame, Catcher, Object, Selected, ◌>>=◌, ◌>>◌, >>=_ok, pure, read, modify, deref,
  lookup, lookup_at,
}
use viuavm.Cpu.Machine.Objects.{points_to, object_at, type_of}
use viuavm.Cpu.Frames.{frame_deletes, listed, current, drop_top, drop_frame}
use viuavm.Cpu.Tick.{
  catcher_for, is_associated, distance, drop_frames, catch_thrown, unwind_to_handler, type_name,
  thrown_type, first_pass, catcher_by_type, catcher_by_ancestor, find_by_type, second_pass,
  if_thrown, handle_thrown,
}

-- The frames above the associated one are counted, unless it is the frame at the bottom.
distance_lem :
    (t : TryFrame) (above : List Frame) (f g : Frame) (below : List Frame)
    → All (λ h. is_associated t h ≡ false) above
    → is_associated t f ≡ true
    → distance t (above ++ f ∷ (g ∷ below)) ≡ length above
unfolding distance
distance_lem t [] f g below apart here = ground arith
distance_lem t (h ∷ above) f g below apart here =
    ground
      (arith, distance_lem t above f g below apart.1 here, length-append above (f ∷ (g ∷ below)))

-- Which registers are used once `above` has been dropped.
abbrev pub selected_after : List Frame → Frame → Selected → Selected
selected_after [] f u = u
selected_after (h ∷ above) f u = Selected.local f.this

-- The effects once `above` has been dropped, from the top.
abbrev pub deleted : List Frame → List Effect → List Effect
deleted [] effects = effects
deleted (h ∷ above) effects = deleted above (listed (frame_deletes h) effects)

drop_frames_lem :
    (above : List Frame) (f : Frame) (below : List Frame) (s : Cpu)
    → drop_frames (length above) (record s { frames = above ++ f ∷ below })
      ≡ ok (
        tt,
        record s {
          frames = f ∷ below;
          uregset = selected_after above f s.uregset;
          effects = deleted above s.effects;
        },
      )
unfolding drop_frames drop_frame drop_top current read modify pure ◌>>=◌ ◌>>◌
drop_frames_lem [] f below s = refl
drop_frames_lem (h ∷ []) f below s = refl
drop_frames_lem (h ∷ (k ∷ above)) f below s =
    drop_frames_lem (k ∷ above) f below
      (record s { uregset = Selected.local k.this; effects = listed (frame_deletes h) s.effects })

-- Control goes to the handler with its frame on top of the call stack, its try frame on top of the
-- others, and the thrown object caught.
abbrev pub unwound :
    Catcher → TryFrame → List TryFrame → List Frame → Frame → List Frame → Cpu → Cpu
unwound c t outer above f below s = record s {
  instruction_pointer = c.block_address;
  frames = f ∷ below;
  uregset = selected_after above f s.uregset;
  tryframes = t ∷ outer;
  caught = s.thrown;
  thrown = none;
  effects = deleted above s.effects;
}

unwind_to_handler_lem :
    (c : Catcher) (t : TryFrame) (outer : List TryFrame) (above : List Frame) (f g : Frame)
    (below : List Frame) (s : Cpu)
    → All (λ h. is_associated t h ≡ false) above
    → is_associated t f ≡ true
    → unwind_to_handler (c, (t, outer)) (record s { frames = above ++ f ∷ (g ∷ below) })
      ≡ ok (tt, unwound c t outer above f (g ∷ below) s)
unfolding unwind_to_handler catch_thrown read modify ◌>>=◌ ◌>>◌
unwind_to_handler_lem c t outer above f g below s apart here =
    rw (distance_lem t above f g below apart here) (
      >>=_ok (drop_frames (length above)) _ _ tt _
        (drop_frames_lem above f (g ∷ below) (record s { instruction_pointer = c.block_address })))

-- A frame that has no catcher for a type that is not in the type system.
catcher_by_ancestor_lem :
    (name : Text) (t : TryFrame) (s : Cpu)
    → lookup name s.typesystem ≡ none
    → catcher_by_ancestor name t s ≡ ok (none, s)
unfolding catcher_by_ancestor read pure ◌>>=◌
catcher_by_ancestor_lem name t s untyped = rw untyped refl

catcher_by_type_lem :
    (name : Text) (t : TryFrame) (s : Cpu)
    → lookup name s.typesystem ≡ none
    → catcher_for name t ≡ none
    → catcher_by_type name t s ≡ ok (none, s)
unfolding catcher_by_type
catcher_by_type_lem name t s untyped missing = rw missing (catcher_by_ancestor_lem name t s untyped)

-- Such frames are passed over.
find_by_type_lem :
    (name : Text) (inner : List TryFrame) (t : TryFrame) (outer : List TryFrame) (c : Catcher)
    (s : Cpu)
    → lookup name s.typesystem ≡ none
    → All (λ u. catcher_for name u ≡ none) inner
    → catcher_for name t ≡ some c
    → find_by_type name (inner ++ t ∷ outer) s ≡ ok (some (c, (t, outer)), s)
unfolding find_by_type catcher_by_type pure ◌>>=◌
find_by_type_lem name [] t outer c s untyped skipped found = rw found refl
find_by_type_lem name (u ∷ inner) t outer c s untyped skipped found =
    >>=_ok (catcher_by_type name u) _ _ none _ (catcher_by_type_lem name u s untyped skipped.0)
    ∙ find_by_type_lem name inner t outer c s untyped skipped.1 found

pub object_at_lem :
    (p : Pointer) (o : Object) (s : Cpu)
    → lookup_at p s.objects ≡ some o
    → object_at p s ≡ ok (o, s)
unfolding object_at deref
object_at_lem p o s found = rw found refl

-- What an object says that its type is; a reference says what the object says that it points to.
abbrev pub HasType : Cpu → Object → Text → Type 0
HasType s (Object.reference c) name =
    (q : Pointer) × (o : Object) × (lookup_at c s.cells ≡ some (some q))
    × (lookup_at q s.objects ≡ some o)
    × (type_of o ≡ some name)
HasType s o name = type_of o ≡ some name

points_to_lem :
    (c q : Pointer) (s : Cpu) → lookup_at c s.cells ≡ some (some q) → points_to c s ≡ ok (some q, s)
unfolding points_to
points_to_lem c q s target = rw (target, points_to) refl

type_name_lem :
    (o : Object) (name : Text) (s : Cpu) → HasType s o name → type_name o s ≡ ok (name, s)
unfolding type_name deref
type_name_lem (Object.reference c) name s (q, o, target, found, typed) =
    >>=_ok (points_to c) _ s (some q) s (points_to_lem c q s target)
    ∙ >>=_ok (deref (some q)) _ s q s refl
    ∙ >>=_ok (object_at q) _ s o s (object_at_lem q o s found)
    ∙ rw typed refl
type_name_lem (Object.integer n) name s h = rw h refl
type_name_lem _ name s h = rw h refl

thrown_type_lem :
    (p : Pointer) (o : Object) (name : Text) (s : Cpu)
    → lookup_at p s.objects ≡ some o
    → HasType s o name
    → thrown_type p s ≡ ok (name, s)
unfolding thrown_type
thrown_type_lem p o name s found typed =
    >>=_ok (object_at p) type_name s o s (object_at_lem p o s found) ∙ type_name_lem o name s typed

-- The first pass leaves an object alone that is no exception.
first_pass_other :
    (p : Pointer) (o : Object) (name : Text) (s : Cpu)
    → lookup_at p s.objects ≡ some o
    → HasType s o name
    → (name =ᵗ codes "Exception") ≡ false
    → first_pass p s ≡ ok (tt, s)
unfolding first_pass pure
first_pass_other p o name s found typed other =
    >>=_ok (thrown_type p) _ _ name _ (thrown_type_lem p o name s found typed) ∙ rw other refl

-- The type of an object does not depend on the stacks.
typed_with :
    (o : Object) (name : Text) (s : Cpu) (frames : List Frame) (tryframes : List TryFrame)
    (thrown : Option Pointer)
    → HasType s o name
    → HasType (record s { frames = frames; tryframes = tryframes; thrown = thrown }) o name
typed_with (Object.reference c) name s frames tryframes thrown h = h
typed_with (Object.integer n) name s frames tryframes thrown h = h
typed_with _ name s frames tryframes thrown h = h

second_pass_lem :
    (p : Pointer) (o : Object) (name : Text) (inner : List TryFrame) (t : TryFrame)
    (outer : List TryFrame) (c : Catcher) (above : List Frame) (f g : Frame) (below : List Frame)
    (s : Cpu)
    → lookup_at p s.objects ≡ some o
    → HasType s o name
    → lookup name s.typesystem ≡ none
    → All (λ u. catcher_for name u ≡ none) inner
    → catcher_for name t ≡ some c
    → All (λ h. is_associated t h ≡ false) above
    → is_associated t f ≡ true
    → second_pass p (record s { frames = above ++ f ∷ (g ∷ below); tryframes = inner ++ t ∷ outer })
      ≡ ok (tt, unwound c t outer above f (g ∷ below) s)
unfolding second_pass read ◌>>=◌
second_pass_lem p o name inner t outer c above f g below s found typed untyped skipped caught apart
      here =
    let start = record s { frames = above ++ f ∷ (g ∷ below); tryframes = inner ++ t ∷ outer } in
    >>=_ok (thrown_type p) _ _ name _ (
      thrown_type_lem p o name start found
        (typed_with o name s start.frames start.tryframes start.thrown typed))
    ∙ >>=_ok (find_by_type name (inner ++ t ∷ outer)) _ _ (some (c, (t, outer))) _
        (find_by_type_lem name inner t outer c start untyped skipped caught)
    ∙ unwind_to_handler_lem c t outer above f g below (record s { tryframes = inner ++ t ∷ outer })
        apart here

-- An object whose type is not `Exception` is thrown, or a reference to one, in a function that any number of calls lead to from the
-- one with the try frame that catches its type; the frame is not the one at the bottom of the stack.
-- No try frame entered later catches the type, which is not in the type system. Then the next
-- instruction is the handler's, the calls in between are dropped with their try frames, and their frames are deleted, with the objects
-- in them that no flag protects; the registers
-- in use are those of the handler's function if there were any, and the object is caught.
pub handle_thrown-unwound :
    (p : Pointer) (o : Object) (name : Text) (inner : List TryFrame) (t : TryFrame)
    (outer : List TryFrame) (c : Catcher) (above : List Frame) (f g : Frame) (below : List Frame)
    (s : Cpu)
    → lookup_at p s.objects ≡ some o
    → HasType s o name
    → (name =ᵗ codes "Exception") ≡ false
    → lookup name s.typesystem ≡ none
    → All (λ u. catcher_for name u ≡ none) inner
    → catcher_for name t ≡ some c
    → All (λ h. is_associated t h ≡ false) above
    → is_associated t f ≡ true
    → handle_thrown (record s {
      frames = above ++ f ∷ (g ∷ below);
      tryframes = inner ++ t ∷ outer;
      thrown = some p;
    })
      ≡ ok (
        some c.block_address,
        record s {
          instruction_pointer = c.block_address;
          frames = f ∷ (g ∷ below);
          uregset = selected_after above f s.uregset;
          tryframes = t ∷ outer;
          caught = some p;
          thrown = none;
          effects = deleted above s.effects;
        },
      )
unfolding handle_thrown if_thrown read pure ◌>>=◌ ◌>>◌
handle_thrown-unwound p o name inner t outer c above f g below s found typed other untyped skipped
      caught apart here =
    let thrown = record s { thrown = some p } in
    let start = record thrown {
      frames = above ++ f ∷ (g ∷ below);
      tryframes = inner ++ t ∷ outer;
    } in
    >>=_ok (first_pass p) _ _ tt _ (
      first_pass_other p o name start found
        (typed_with o name s start.frames start.tryframes start.thrown typed) other)
    ∙ >>=_ok (second_pass p) _ _ tt _ (
        second_pass_lem p o name inner t outer c above f g below thrown found
          (typed_with o name s s.frames s.tryframes (some p) typed) untyped skipped caught apart
          here)
