-- ===== src/Assembler/Verify/Totality.antt =====
-- `frameBalance` ends with a report.
use viuavm.Common.{
  ◌&&◌, inr, inl, ltb, Bool-cases, arith, refl, length, ◌+◌, ◌<◌, ◌≡◌, Text, ◌≤◌, List, Option, ℕ,
  [], ◌∷◌, none, some,
}
use viuavm.Assembler.Verify.{
  SourceLines, FrameReport, clean, call_without_frame, excess_frame, leftover_frame, FrameEvent,
  call, frame, end, other, instruction_of, event_of, get_some, balance_after, is_end, spawned_at,
  frame_check, unless_reported, frame_loop, frame_balance,
}

spawned_at-bound :
    (event : FrameEvent) (i previous : ℕ) → previous ≤ i → spawned_at event i previous ≤ i + 1
spawned_at-bound frame i previous h = omega arith
spawned_at-bound call i previous h = omega arith
spawned_at-bound end i previous h = omega arith
spawned_at-bound other i previous h = omega arith

frame_check-total :
    (expanded : SourceLines) (i previous m k : ℕ) (instruction : Text) (event : FrameEvent)
    (after : Option ℕ)
    → expanded i ≡ some m
    → expanded previous ≡ some k
    → (r : FrameReport) × (frame_check expanded i instruction event previous after ≡ some r)
unfolding frame_check
frame_check-total expanded i previous m k instruction event none e e' =
    (call_without_frame instruction (m + 1), rw e refl)
frame_check-total expanded i previous m k instruction event (some b) e e' =
    elim (Bool-cases (ltb 1 b)) [
      | inl excess ↦ (excess_frame (m + 1) (k + 1), rw (excess, e, e') refl)
      | inr one ↦ elim (Bool-cases (is_end event && ltb 0 b)) [
        | inl leftover ↦ (leftover_frame (m + 1) (k + 1), rw (one, leftover, e, e') refl)
        | inr fine ↦ (clean, rw (one, fine) refl)
      ]
    ]

goes_on :
    (r : FrameReport) (rest : Option FrameReport)
    → ((s : FrameReport) × (rest ≡ some s))
    → (s : FrameReport) × (unless_reported (some r) rest ≡ some s)
goes_on clean rest h = h
goes_on (call_without_frame t n) rest h = (call_without_frame t n, refl)
goes_on (excess_frame m n) rest h = (excess_frame m n, refl)
goes_on (leftover_frame m n) rest h = (leftover_frame m n, refl)

module _ (expanded : SourceLines) (n : ℕ)
    (known : (j : ℕ) → j < n → (m : ℕ) × (expanded j ≡ some m)) where
  frame_loop-total :
      (lines : List Text) (i balance previous : ℕ)
      → i + length lines ≡ n
      → previous ≤ i
      → (r : FrameReport) × (frame_loop expanded i balance previous lines ≡ some r)
  unfolding frame_loop
  frame_loop-total [] i balance previous size before = (clean, refl)
  frame_loop-total (line ∷ lines) i balance previous size before =
      let instruction = instruction_of line in
      let event = event_of instruction in
      let after = balance_after event balance in
      let (m, e) = known i (omega arith) in
      let (k, e') = known previous (omega arith) in
      let (r, checked) = frame_check-total expanded i previous m k instruction event after e e' in
      let next =
        frame_loop-total lines (i + 1) (get_some after) (spawned_at event i previous) (omega arith)
          (spawned_at-bound event i previous before) in
      rw checked (goes_on r _ next)

-- Where every line has a line in the source, `frameBalance` ends with a report, empty or not.
pub frame_balance_total :
    (lines : List Text) (expanded : SourceLines)
    → ((j : ℕ) → j < length lines → (m : ℕ) × (expanded j ≡ some m))
    → (r : FrameReport) × (frame_balance lines expanded ≡ some r)
unfolding frame_balance
frame_balance_total lines expanded known =
    frame_loop-total expanded (length lines) known lines 0 0 0 (omega arith) (omega arith)
