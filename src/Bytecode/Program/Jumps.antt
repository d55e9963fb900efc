-- ===== src/Bytecode/Program/Jumps.antt =====
-- src/program.cpp: `Program::calculateJumps`, which turns the instruction indices in jumps into offsets.
use viuavm.Common.{◌-◌, ltb, if◌then◌else◌, ◌%◌, ◌++◌, ◌*◌, some, take, drop, ◌+◌, ℕ, List, [], ◌∷◌}
use viuavm.Common.Throw.{Result, ok, err, ◌>>=◌}
use viuavm.Bytecode.Cursor.{int_bytes}
use viuavm.Bytecode.Program.Offset.{
  ProgramError, Index, instruction_count, get_instruction_bytecode_offset,
}

-- `*ptr`, an `int` by its bit pattern. (Reading past the end of the array is a fault.)
unfoldable pub int_at_front : List ℕ → Result ProgramError ℕ
int_at_front (a ∷ (b ∷ (c ∷ (d ∷ rest)))) = ok (a + 256 * b + 65536 * c + 16777216 * d)
int_at_front _ = err ProgramError.wild_read

-- `ptr = (int*)(program+position)`, and `*ptr`.
unfoldable pub read_int : List ℕ → ℕ → Result ProgramError ℕ
read_int program position = int_at_front (drop position program)

-- `(*ptr) = n`
unfoldable pub write_int : List ℕ → ℕ → ℕ → List ℕ
write_int program position n = take position program ++ (int_bytes n ++ drop (position + 4) program)

-- An `int` as an index: a pattern from 2^31 on is a negative number.
unfoldable pub index_of : ℕ → Index
index_of n = if ltb n 2147483648 then Index.from_start n else Index.from_end (4294967295 - n)

-- One round: the target at `position` becomes `offset` and the offset of the instruction it names.
unfoldable pub calculate_jump : ℕ → List ℕ → ℕ × ℕ → Result ProgramError (List ℕ)
calculate_jump count program (position, offset) = do
  target ← read_int program position
  adjustment ← get_instruction_bytecode_offset program (index_of target) (some count)
  ok (write_int program position ((offset + adjustment) % 4294967296))

unfoldable pub calculate_loop : ℕ → List ℕ → List (ℕ × ℕ) → Result ProgramError (List ℕ)
calculate_loop count program [] = ok program
calculate_loop count program (jmp ∷ jump_positions) =
    calculate_jump count program jmp >>= λ next. calculate_loop count next jump_positions

unfoldable pub calculate_jumps : List ℕ → List (ℕ × ℕ) → Result ProgramError (List ℕ)
calculate_jumps program jump_positions =
    calculate_loop (instruction_count program) program jump_positions
