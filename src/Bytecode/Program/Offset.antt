-- ===== src/Bytecode/Program/Offset.antt =====
-- src/program.cpp: `Program::instructionCount` and `Program::getInstructionBytecodeOffset`.
use viuavm.Common.{
  ℕ, zero, suc, ◌+◌, ◌-◌, Option, none, some, List, [], ◌∷◌, length, drop, leb, ◌==◌, if◌then◌else◌,
  Text,
}
use viuavm.Common.Throw.{Result, ok, err, ◌>>=◌}
use viuavm.Bytecode.Opcode.{Opcode, of_byte}
use viuavm.Bytecode.Tables.{op_size}

-- What is thrown; `wild_read` is no exception but a read past the end of the array.
pub data ProgramError : Type 0 where
  unknown_opcode offset_out_of_bounds wild_read : ProgramError

-- `string s(p)`: the characters up to the first NUL.
unfoldable pub c_string : List ℕ → Result ProgramError Text
c_string [] = err ProgramError.wild_read
c_string (c ∷ s) = if c == 0 then ok [] else (c_string s >>= λ t. ok (c ∷ t))

-- The bytes of a name that starts at `at`, with its terminator.
unfoldable pub name_length : ℕ → List ℕ → Result ProgramError ℕ
name_length at code = do s ← c_string (drop at code); ok (length s + 1)

-- Two names, one behind the other.
unfoldable pub two_names_length : ℕ → List ℕ → Result ProgramError ℕ
two_names_length at code = do
  s ← c_string (drop at code)
  t ← c_string (drop (at + length s + 1) code)
  ok ((length s + 1) + (length t + 1))

-- What the names of an instruction add to `inc`; `code` starts at its opcode.
unfoldable pub names_length : Opcode → List ℕ → Result ProgramError ℕ
names_length Opcode.import code = name_length 1 code
names_length Opcode.enter code = name_length 1 code
names_length Opcode.link code = name_length 1 code
names_length Opcode.call code = name_length 6 code
names_length Opcode.closure code = name_length 6 code
names_length Opcode.function code = name_length 6 code
names_length Opcode.class code = name_length 6 code
names_length Opcode.prototype code = name_length 6 code
names_length Opcode.derive code = name_length 6 code
names_length Opcode.new code = name_length 6 code
names_length Opcode.msg code = name_length 6 code
names_length Opcode.attach code = two_names_length 6 code
names_length Opcode.strstore code = name_length (op_size Opcode.strstore) code
names_length Opcode.catch code = two_names_length 1 code
names_length _ code = ok 0

unfoldable pub length_of : Option Opcode → List ℕ → Result ProgramError ℕ
length_of none code = err ProgramError.unknown_opcode
length_of (some op) code = do n ← names_length op code; ok (op_size op + n)

-- `inc` at the instruction that starts `code`.
unfoldable pub instruction_length : List ℕ → Result ProgramError ℕ
instruction_length [] = err ProgramError.wild_read
instruction_length (b ∷ code) = length_of (of_byte b) (b ∷ code)

-- The loop over the instructions before the one that is asked for.
unfoldable pub offset_loop : ℕ → List ℕ → ℕ → Result ProgramError ℕ
offset_loop zero program offset = ok offset
offset_loop (suc n) program offset = do
  inc ← instruction_length (drop offset program)
  if leb (offset + inc + 1) (length program)
      then offset_loop n program (offset + inc)
      else err ProgramError.offset_out_of_bounds

-- How many bytes `instructionCount` takes for operands behind an opcode.
unfoldable pub counted_operands : Option Opcode → ℕ
counted_operands (some Opcode.iadd) = 12
counted_operands (some Opcode.isub) = 12
counted_operands (some Opcode.imul) = 12
counted_operands (some Opcode.idiv) = 12
counted_operands (some Opcode.ilt) = 12
counted_operands (some Opcode.ilte) = 12
counted_operands (some Opcode.igt) = 12
counted_operands (some Opcode.igte) = 12
counted_operands (some Opcode.ieq) = 12
counted_operands (some Opcode.branch) = 12
counted_operands (some Opcode.istore) = 8
counted_operands (some Opcode.iinc) = 4
counted_operands (some Opcode.idec) = 4
counted_operands (some Opcode.print) = 4
counted_operands (some Opcode.jump) = 4
counted_operands _ = 0

-- The loop of `instructionCount`, with the bytes that are still to be skipped.
unfoldable pub count_loop : ℕ → List ℕ → ℕ → ℕ
count_loop skipped [] counter = counter
count_loop (suc skipped) (b ∷ program) counter = count_loop skipped program counter
count_loop zero (b ∷ program) counter =
    count_loop (counted_operands (of_byte b)) program (counter + 1)

unfoldable pub instruction_count : List ℕ → ℕ
instruction_count program = count_loop 0 program 0

-- An index: from the start, or `from_end n` for -(n + 1).
pub data Index : Type 0 where
  from_start from_end : ℕ → Index

-- `instr >= 0 ? instr : count+instr`; where that is negative the loop makes no round.
unfoldable pub rounds : Index → ℕ → ℕ
rounds (Index.from_start n) count = n
rounds (Index.from_end n) count = count - (n + 1)

-- A `count` that is not given (or is negative) is computed.
unfoldable pub get_instruction_bytecode_offset : List ℕ → Index → Option ℕ → Result ProgramError ℕ
get_instruction_bytecode_offset program instr (some count) =
    offset_loop (rounds instr count) program 0
get_instruction_bytecode_offset program instr none =
    offset_loop (rounds instr (instruction_count program)) program 0
