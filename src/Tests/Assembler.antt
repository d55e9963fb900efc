-- ===== src/Tests/Assembler.antt =====
-- Runs of the checks of the assembler, and their theorems at concrete inputs.
use viuavm.Assembler.Verify.Totality.{frame_balance_total}
use viuavm.Assembler.Verify.{FrameReport}
use viuavm.Common.{refl, refl, ℕ, codes, Text, ◌≡◌, List, [], ◌∷◌, some}
use viuavm.Assembler.Verify.{SourceLines, frame_balance}
use viuavm.Assembler.Verify.Frames.{
  frame_balance-is_paired, has_unused_frame, is_clean, is_paired, frame_events,
}
use viuavm.Common.{◌++◌, ◌||◌, true, arith, All, ◌≢◌, ◌=ᵗ◌}
use viuavm.Common.Throw.{err}
use viuavm.Bytecode.Tables.{sized_instructions, op_name}
use viuavm.Bytecode.Instruction.Layout.{ress_id}
use viuavm.Bytecode.Program.Count.{
  unrecognised_instruction, count_bytes, instruction_to_opcode, find_opcode, without_chunk,
}
use viuavm.Bytecode.Program.Lines.{spaced}
use viuavm.Text.{lstrip, chunk, chunk_from, startswith, join}
use viuavm.Text.Words.{IsWord}
use viuavm.Assembler.Verify.Checks.{
  has_size, scan, instructions, unknown_instruction, function_calls_are_defined, undefined_call,
  is_among, ress_instructions, ress_loop, illegal_ress,
}
use viuavm.Assembler.Verify.Reports.{function_calls_are_defined-call}
use viuavm.Assembler.Verify.Counting.{instructions-count_bytes, IsCode}
use viuavm.Assembler.Verify.Ress.{ress_instructions-ress_id}

abbrev same_lines : SourceLines
same_lines i = some i

abbrev two_frames : List Text
two_frames = codes "frame 1" ∷ codes "" ∷ codes "frame 2" ∷ codes "call f" ∷ []

frame_balance-is_paired_example :
    is_clean (frame_balance two_frames same_lines)
    ≡ is_paired (frame_events two_frames) || has_unused_frame (frame_events two_frames)
frame_balance-is_paired_example = frame_balance-is_paired two_frames same_lines

-- Two lines of a function, and a call of it.
abbrev program : List Text
program = codes "istore 1 300" ∷ codes "frame 0" ∷ codes "call 1 f" ∷ []

program-IsCode : All (λ line. IsCode (lstrip line)) program
unfolding lstrip
program-IsCode = omega arith

program_clean : instructions program same_lines ≡ some []
unfolding instructions scan lstrip unknown_instruction has_size sized_instructions
    instruction_to_opcode find_opcode chunk chunk_from op_name ◌=ᵗ◌
program_clean = refl

instructions-count_bytes_example :
    count_bytes program ≢ err (unrecognised_instruction (codes "istore"))
instructions-count_bytes_example =
    instructions-count_bytes program same_lines (codes "istore") program-IsCode program_clean

one-IsWord : IsWord (codes "1")
one-IsWord = (omega arith, (refl, tt))

f-IsWord : IsWord (codes "f")
f-IsWord = (omega arith, (refl, tt))

calls_clean :
    function_calls_are_defined
      ((codes "frame 0" ∷ []) ++ spaced (codes "call" ∷ codes "1" ∷ codes "f" ∷ []) ∷ [])
      same_lines
      (codes "f" ∷ [])
      []
    ≡ some []
unfolding function_calls_are_defined scan undefined_call lstrip without_chunk chunk chunk_from
    startswith is_among join ◌=ᵗ◌
calls_clean = refl

function_calls_are_defined-call_example :
    (is_among (codes "f") (codes "f" ∷ []) || is_among (codes "f") []) ≡ true
function_calls_are_defined-call_example =
    function_calls_are_defined-call (codes "frame 0" ∷ []) [] same_lines (codes "f" ∷ []) []
      (codes "1") (codes "f") one-IsWord f-IsWord calls_clean

static-IsWord : IsWord (codes "static")
static-IsWord = (omega arith, (refl, (refl, (refl, (refl, (refl, (refl, tt)))))))

ress_clean :
    ress_instructions
      ((codes ".function: g" ∷ []) ++ spaced (codes "ress" ∷ codes "static" ∷ []) ∷ [])
      same_lines
      true
    ≡ some []
unfolding ress_instructions ress_loop illegal_ress lstrip without_chunk chunk chunk_from startswith
    is_among join ◌=ᵗ◌
ress_clean = refl

ress_instructions-ress_id_example : (n : ℕ) × (ress_id (codes "static") ≡ some n)
ress_instructions-ress_id_example =
    ress_instructions-ress_id (codes ".function: g" ∷ []) [] same_lines true (codes "static")
      static-IsWord ress_clean

frame_balance_total_example : (r : FrameReport) × (frame_balance two_frames same_lines ≡ some r)
frame_balance_total_example = frame_balance_total two_frames same_lines (λ j h. (j, refl))
