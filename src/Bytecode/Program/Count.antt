-- ===== src/Bytecode/Program/Count.antt =====
-- src/program.cpp: `instructionToOpcode` and `Program::countBytes`.
use viuavm.Common.{
  ◌%◌, ◌-◌, Bool, ◌==◌, ◌+◌, length, drop, Option, List, ℕ, Text, codes, ◌=ᵗ◌, if◌then◌else◌, [],
  ◌∷◌, none, some, true, false,
}
use viuavm.Common.Throw.{Result, ok, err, ◌>>=◌}
use viuavm.Bytecode.Opcode.{Opcode, opcodes}
use viuavm.Bytecode.Tables.{op_name, op_size}
use viuavm.Text.{lstrip, chunk, extract}

-- What is thrown.
pub data CountError : Type 0 where
  unrecognised_instruction : Text → CountError
  requires_no_bytes : CountError

-- The loop over OP_NAMES; `none` is std::out_of_range.
unfoldable pub find_opcode : Text → List Opcode → Option Opcode
find_opcode s [] = none
find_opcode s (op ∷ ops) = if codes (op_name op) =ᵗ s then some op else find_opcode s ops

unfoldable pub instruction_to_opcode : Text → Option Opcode
instruction_to_opcode s = find_opcode s opcodes

-- `line = lstrip(sub(line, chunk(line).size()))`: without its first chunk.
unfoldable pub without_chunk : Text → Text
without_chunk line = lstrip (drop (length (chunk line true)) line)

-- The same with an extracted literal.
unfoldable pub without_literal : Text → Text
without_literal line = lstrip (drop (length (extract line)) line)

-- `chunk(line).size() + 1`
unfoldable pub chunk_bytes : Text → ℕ
chunk_bytes line = length (chunk line true) + 1

-- `inc + (extract(line).size() - 2 + 1)`. Of an empty literal the unsigned difference wraps around, and
-- the sum with `inc`, which is not 0, wraps back.
unfoldable pub plus_literal : ℕ → Text → ℕ
plus_literal inc line = (inc + length (extract line)) - 1

-- `(second_op.size() ? second_op : first_op).size() + 1`
unfoldable pub callee_bytes : Text → ℕ
callee_bytes line =
    let second_op = chunk (without_chunk line) true in
    (if length second_op == 0 then length (chunk line true) else length second_op) + 1

-- What the branches for instructions with names make of `inc`; `line` is behind the mnemonic.
unfoldable pub names_in_line : Opcode → ℕ → Text → ℕ
names_in_line Opcode.enter inc line = inc + chunk_bytes line
names_in_line Opcode.call inc line = inc + callee_bytes line
names_in_line Opcode.msg inc line = inc + callee_bytes line
names_in_line Opcode.closure inc line = inc + chunk_bytes (without_chunk line)
names_in_line Opcode.function inc line = inc + chunk_bytes (without_chunk line)
names_in_line Opcode.class inc line = inc + chunk_bytes (without_chunk line)
names_in_line Opcode.prototype inc line = inc + chunk_bytes (without_chunk line)
names_in_line Opcode.derive inc line = inc + chunk_bytes (without_chunk line)
names_in_line Opcode.new inc line = inc + chunk_bytes (without_chunk line)
names_in_line Opcode.attach inc line =
    let function_name = without_chunk line in
    inc + chunk_bytes function_name + chunk_bytes (without_chunk function_name)
names_in_line Opcode.import inc line = plus_literal inc line
names_in_line Opcode.link inc line = inc + chunk_bytes line
names_in_line Opcode.catch inc line = plus_literal inc line + chunk_bytes (without_literal line)
names_in_line Opcode.strstore inc line = plus_literal inc (without_chunk line)
names_in_line _ inc line = inc

-- `inc` for a line with that opcode, or the exception.
unfoldable pub opcode_bytes : Option Opcode → Text → Result CountError ℕ
opcode_bytes none line = err (unrecognised_instruction (chunk line true))
opcode_bytes (some op) line =
    let inc = names_in_line op (op_size op) (without_chunk line) in
    if inc == 0 then err requires_no_bytes else ok inc

unfoldable pub line_bytes : Text → Result CountError ℕ
line_bytes line = opcode_bytes (instruction_to_opcode (chunk line true)) line

abbrev pub is_directive : Text → Bool
is_directive [] = false
is_directive (c ∷ line) = c == 46

-- `bytes += inc` on a uint16_t.
unfoldable pub add16 : ℕ → ℕ → ℕ
add16 bytes inc = (bytes + inc) % 65536

-- The loop over the lines.
unfoldable pub count_lines : ℕ → List Text → Result CountError ℕ
count_lines bytes [] = ok bytes
count_lines bytes (line ∷ lines) =
    let skipped = count_lines bytes lines in
    let counted = line_bytes (lstrip line) >>= λ inc. count_lines (add16 bytes inc) lines in
    if is_directive (lstrip line) then skipped else counted

unfoldable pub count_bytes : List Text → Result CountError ℕ
count_bytes lines = count_lines 0 lines
