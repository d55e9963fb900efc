-- ===== src/Assembler/Verify/Frames.antt =====
-- `frameBalance` against a grammar of the calls and frames of a program.
use viuavm.Common.Maybe.{◌>>=◌}
use viuavm.Common.{
  ◌||◌, refl, ◌+◌, false, ◌≡◌, ℕ, true, Option, Bool, Text, List, [], ◌∷◌, some, none,
}
use viuavm.Assembler.Verify.{
  spawned_at, get_some, source_line, frame_check, unless_reported, instruction_of, balance_after,
  FrameReport, event_of, frame_balance, SourceLines, FrameEvent, call, frame, end, other,
  frame_loop, clean, call_without_frame, excess_frame, leftover_frame,
}

-- The instructions that the check looks at, in order.
abbrev keep : FrameEvent → List FrameEvent → List FrameEvent
keep other es = es
keep e es = e ∷ es

abbrev pub frame_events : List Text → List FrameEvent
frame_events [] = []
frame_events (line ∷ lines) = keep (event_of (instruction_of line)) (frame_events lines)

-- Each frame is used by a call before another frame is made or the function ends, and each call has a
-- frame.
abbrev pub is_paired : List FrameEvent → Bool
is_paired [] = true
is_paired (end ∷ es) = is_paired es
is_paired (frame ∷ (call ∷ es)) = is_paired es
is_paired _ = false

-- The same, with one frame more at the end of the program, which no call uses.
abbrev pub has_unused_frame : List FrameEvent → Bool
has_unused_frame [] = false
has_unused_frame (end ∷ es) = has_unused_frame es
has_unused_frame (frame ∷ []) = true
has_unused_frame (frame ∷ (call ∷ es)) = has_unused_frame es
has_unused_frame _ = false

-- What the check lets pass.
abbrev pub is_accepted : List FrameEvent → Bool
is_accepted es = is_paired es || has_unused_frame es

abbrev pub is_clean : Option FrameReport → Bool
is_clean (some clean) = true
is_clean _ = false

call-not_clean :
    (line : Option ℕ) (instruction : Text) (rest : Option FrameReport)
    → is_clean (unless_reported (line >>= λ n. some (call_without_frame instruction n)) rest)
      ≡ false
call-not_clean none instruction rest = refl
call-not_clean (some n) instruction rest = refl

excess-not_clean :
    (line spawned : Option ℕ) (rest : Option FrameReport)
    → is_clean (unless_reported (line >>= λ m. spawned >>= λ n. some (excess_frame m n)) rest)
      ≡ false
excess-not_clean none spawned rest = refl
excess-not_clean (some m) none rest = refl
excess-not_clean (some m) (some n) rest = refl

leftover-not_clean :
    (line spawned : Option ℕ) (rest : Option FrameReport)
    → is_clean (unless_reported (line >>= λ m. spawned >>= λ n. some (leftover_frame m n)) rest)
      ≡ false
leftover-not_clean none spawned rest = refl
leftover-not_clean (some m) none rest = refl
leftover-not_clean (some m) (some n) rest = refl

module _ (expanded : SourceLines) where
  abbrev round : FrameEvent → Text → ℕ → ℕ → ℕ → List Text → Option FrameReport
  round event instruction i balance previous lines =
      let after = balance_after event balance in
      unless_reported (frame_check expanded i instruction event previous after)
        (frame_loop expanded (i + 1) (get_some after) (spawned_at event i previous) lines)

  abbrev Agree : List Text → Type 0
  Agree lines =
      (i previous : ℕ)
      → (is_clean (frame_loop expanded i 0 previous lines) ≡ is_accepted (frame_events lines))
        × (is_clean (frame_loop expanded i 1 previous lines)
            ≡ is_accepted (frame ∷ frame_events lines))

  balanced_round :
      (event : FrameEvent) (instruction : Text) (i previous : ℕ) (lines : List Text)
      → Agree lines
      → is_clean (round event instruction i 0 previous lines)
        ≡ is_accepted (keep event (frame_events lines))
  unfolding balance_after frame_check
  balanced_round call instruction i previous lines h = call-not_clean (source_line expanded i) _ _
  balanced_round frame instruction i previous lines h = (h (i + 1) i).1
  balanced_round end instruction i previous lines h = (h (i + 1) previous).0
  balanced_round other instruction i previous lines h = (h (i + 1) previous).0

  open_round :
      (event : FrameEvent) (instruction : Text) (i previous : ℕ) (lines : List Text)
      → Agree lines
      → is_clean (round event instruction i 1 previous lines)
        ≡ is_accepted (frame ∷ keep event (frame_events lines))
  unfolding balance_after frame_check
  open_round call instruction i previous lines h = (h (i + 1) previous).0
  open_round frame instruction i previous lines h = excess-not_clean (source_line expanded i) _ _
  open_round end instruction i previous lines h = leftover-not_clean (source_line expanded i) _ _
  open_round other instruction i previous lines h = (h (i + 1) previous).1

  frame_loop-Agree : (lines : List Text) → Agree lines
  unfolding frame_loop
  frame_loop-Agree [] i previous = (refl, refl)
  frame_loop-Agree (line ∷ lines) i previous =
      let event = event_of (instruction_of line) in
      (
        balanced_round event _ i previous lines (frame_loop-Agree lines),
        open_round event _ i previous lines (frame_loop-Agree lines),
      )

-- `frameBalance` has an empty report exactly on the programs whose calls and frames are paired, but that
-- one unused frame at the very end, with no `end` behind it, is not reported.
pub frame_balance-is_paired :
    (lines : List Text) (expanded : SourceLines)
    → is_clean (frame_balance lines expanded)
      ≡ is_paired (frame_events lines) || has_unused_frame (frame_events lines)
unfolding frame_balance
frame_balance-is_paired lines expanded = (frame_loop-Agree expanded lines 0 0).0
