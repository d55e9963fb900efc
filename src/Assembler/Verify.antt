-- ===== src/Assembler/Verify.antt =====
-- src/cg/assembler/verify.cpp. A report is a value, without the words of its message; a clean program
-- has an empty report. `std::map::at` on a line that the map lacks throws, which is `none`.
pub mod Frames
pub mod Totality
pub mod Checks
pub mod Reports
pub mod Counting
pub mod Ress
use viuavm.Common.{
  ◌&&◌, codes, ltb, Bool, ◌=ᵗ◌, if◌then◌else◌, ◌∷◌, [], none, some, true, false, zero, suc,
}
use viuavm.Common.Maybe.{◌>>=◌}
use viuavm.Text.{chunk, lstrip}
use viuavm.Common.{◌+◌, some, true, Option, List, Text, ℕ}

-- `expanded_lines_to_source_lines`
abbrev pub SourceLines : Type 0
SourceLines = ℕ → Option ℕ

-- `expanded_lines_to_source_lines.at(i)+1`
abbrev pub source_line : SourceLines → ℕ → Option ℕ
source_line expanded i = expanded i >>= λ n. some (n + 1)

-- The report of `frameBalance`: the lines are those of the source.
pub data FrameReport : Type 0 where
  clean : FrameReport
  call_without_frame : Text → ℕ → FrameReport
  excess_frame leftover_frame : ℕ → ℕ → FrameReport

-- What a line is to `frameBalance`, by its instruction.
pub data FrameEvent : Type 0 where
  call frame end other : FrameEvent

unfoldable pub event_of : Text → FrameEvent
event_of instruction =
    if instruction =ᵗ codes "call"
    then call
    else if instruction =ᵗ codes "excall"
    then call
    else if instruction =ᵗ codes "fcall"
    then call
    else if instruction =ᵗ codes "msg"
    then call
    else if instruction =ᵗ codes "frame"
    then frame
    else if instruction =ᵗ codes "end"
    then end
    else other

-- `chunk(lstrip(line))`; an empty line has no instruction.
abbrev pub instruction_of : Text → Text
instruction_of line = chunk (lstrip line) true

-- `report << … at(i) … at(previous)`
abbrev two_lines : SourceLines → ℕ → ℕ → (ℕ → ℕ → FrameReport) → Option FrameReport
two_lines expanded i previous report = do
  line ← source_line expanded i
  spawned ← source_line expanded previous
  some (report line spawned)

abbrev pub get_some : Option ℕ → ℕ
get_some none = 0
get_some (some n) = n

-- The balance after an instruction; a negative one is `none`.
unfoldable pub balance_after : FrameEvent → ℕ → Option ℕ
balance_after call zero = none
balance_after call (suc balance) = some balance
balance_after frame balance = some (balance + 1)
balance_after _ balance = some balance

abbrev pub is_end : FrameEvent → Bool
is_end end = true
is_end _ = false

-- `if (instruction == "frame") { previous_frame_spawnline = i; }`
abbrev pub spawned_at : FrameEvent → ℕ → ℕ → ℕ
spawned_at frame i previous = i
spawned_at _ i previous = previous

-- The report on an instruction whose balance is `balance`, or that there is none.
unfoldable pub frame_check : SourceLines → ℕ → Text → FrameEvent → ℕ → Option ℕ → Option FrameReport
frame_check expanded i instruction event previous none =
    source_line expanded i >>= λ n. some (call_without_frame instruction n)
frame_check expanded i instruction event previous (some balance) =
    if ltb 1 balance
    then two_lines expanded i previous excess_frame
    else if is_end event && ltb 0 balance
    then two_lines expanded i previous leftover_frame
    else some clean

-- After a clean check the loop goes on; a report, or an exception, ends it.
abbrev pub unless_reported : Option FrameReport → Option FrameReport → Option FrameReport
unless_reported (some clean) rest = rest
unless_reported report rest = report

-- The loop from line `i` on, over the lines that are left.
unfoldable pub frame_loop : SourceLines → ℕ → ℕ → ℕ → List Text → Option FrameReport
frame_loop expanded i balance previous [] = some clean
frame_loop expanded i balance previous (line ∷ lines) =
    let instruction = instruction_of line in
    let event = event_of instruction in
    let after = balance_after event balance in
    let rest = frame_loop expanded (i + 1) (get_some after) (spawned_at event i previous) lines in
    unless_reported (frame_check expanded i instruction event previous after) rest

unfoldable pub frame_balance : List Text → SourceLines → Option FrameReport
frame_balance lines expanded = frame_loop expanded 0 0 0 lines
