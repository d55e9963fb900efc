-- ===== src/Cpu/Tick/Detailed.antt =====
-- src/cpu/cpu.cpp: the first pass of `tick`, which looks for a catcher of an exception's detailed type.
use viuavm.Common.{◌≡◌, refl, ◌∙◌, none, some, List, [], ◌∷◌, ◌++◌, Text, codes, arith, ◌=ᵗ◌, All}
use viuavm.Common.Throw.{ok}
use viuavm.Cpu.RegisterSet.{Pointer}
use viuavm.Cpu.Machine.{
  Cpu, TryFrame, Catcher, Object, ◌>>=◌, ◌>>◌, >>=_ok, pure, read, modify, deref, lookup_at,
}
use viuavm.Cpu.Machine.Objects.{object_at, type_of}
use viuavm.Cpu.Tick.{
  find_handler, catcher_for, catch_thrown, jump_to_handler, type_name, thrown_type, etype_of,
  catch_etype, first_pass, if_thrown, handle_thrown,
}
use viuavm.Cpu.Tick.Unwinding.{object_at_lem}

-- What an exception says that its type is.
thrown_exception_lem :
    (p : Pointer) (etype cause : Text) (s : Cpu)
    → lookup_at p s.objects ≡ some (Object.exception etype cause)
    → thrown_type p s ≡ ok (codes "Exception", s)
unfolding thrown_type type_name type_of deref
thrown_exception_lem p etype cause s found =
    >>=_ok (object_at p) type_name s (Object.exception etype cause) s (object_at_lem p _ s found)

find_handler_lem :
    (name : Text) (inner : List TryFrame) (t : TryFrame) (outer : List TryFrame) (c : Catcher)
    → All (λ u. catcher_for name u ≡ none) inner
    → catcher_for name t ≡ some c
    → find_handler (catcher_for name) (inner ++ t ∷ outer) ≡ some (c, (t, outer))
unfolding find_handler
find_handler_lem name [] t outer c skipped caught = ground arith
find_handler_lem name (u ∷ inner) t outer c skipped caught =
    ground (arith, find_handler_lem name inner t outer c skipped.1 caught)

catch_etype_lem :
    (p : Pointer) (etype cause : Text) (inner : List TryFrame) (t : TryFrame)
    (outer : List TryFrame) (c : Catcher) (s : Cpu)
    → lookup_at p s.objects ≡ some (Object.exception etype cause)
    → All (λ u. catcher_for etype u ≡ none) inner
    → catcher_for etype t ≡ some c
    → catch_etype p (record s { tryframes = inner ++ t ∷ outer })
      ≡ ok (
        tt,
        record s {
          tryframes = inner ++ t ∷ outer;
          instruction_pointer = c.block_address;
          caught = s.thrown;
          thrown = none;
        },
      )
unfolding catch_etype etype_of jump_to_handler catch_thrown deref read modify ◌>>=◌ ◌>>◌
catch_etype_lem p etype cause inner t outer c s found skipped caught =
    let start = record s { tryframes = inner ++ t ∷ outer } in
    >>=_ok (object_at p) _ start (Object.exception etype cause) start
      (object_at_lem p _ start found)
    ∙ rw (find_handler_lem etype inner t outer c skipped caught) refl

first_pass_lem :
    (p : Pointer) (etype cause : Text) (inner : List TryFrame) (t : TryFrame)
    (outer : List TryFrame) (c : Catcher) (s : Cpu)
    → lookup_at p s.objects ≡ some (Object.exception etype cause)
    → All (λ u. catcher_for etype u ≡ none) inner
    → catcher_for etype t ≡ some c
    → first_pass p (record s { tryframes = inner ++ t ∷ outer })
      ≡ ok (
        tt,
        record s {
          tryframes = inner ++ t ∷ outer;
          instruction_pointer = c.block_address;
          caught = s.thrown;
          thrown = none;
        },
      )
unfolding first_pass ◌=ᵗ◌
first_pass_lem p etype cause inner t outer c s found skipped caught =
    let start = record s { tryframes = inner ++ t ∷ outer } in
    >>=_ok (thrown_type p) _ start (codes "Exception") start
      (thrown_exception_lem p etype cause start found)
    ∙ catch_etype_lem p etype cause inner t outer c s found skipped caught

-- An exception is thrown, of any detailed type, that a try frame has a catcher for and no try frame
-- entered later has. Then the handler gets control, and the exception is caught, but both stacks stay
-- as they are: the calls between the handler's function and the one that threw are not dropped, nor
-- the try frames entered later.
pub handle_thrown-not_unwound :
    (p : Pointer) (etype cause : Text) (inner : List TryFrame) (t : TryFrame)
    (outer : List TryFrame) (c : Catcher) (s : Cpu)
    → lookup_at p s.objects ≡ some (Object.exception etype cause)
    → All (λ u. catcher_for etype u ≡ none) inner
    → catcher_for etype t ≡ some c
    → handle_thrown (record s { tryframes = inner ++ t ∷ outer; thrown = some p })
      ≡ ok (
        some c.block_address,
        record s {
          tryframes = inner ++ t ∷ outer;
          instruction_pointer = c.block_address;
          caught = some p;
          thrown = none;
        },
      )
unfolding handle_thrown if_thrown read pure ◌>>=◌ ◌>>◌
handle_thrown-not_unwound p etype cause inner t outer c s found skipped caught =
    let thrown = record s { thrown = some p } in
    >>=_ok (first_pass p) _ (record thrown { tryframes = inner ++ t ∷ outer }) tt _
      (first_pass_lem p etype cause inner t outer c thrown found skipped caught)
