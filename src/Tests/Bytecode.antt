-- ===== src/Tests/Bytecode.antt =====
-- Runs of the encoders, of `Program` and of the offset search, and their theorems at concrete inputs.
use viuavm.Common.{
  if◌then◌else◌, All, ℕ, ◌≡◌, refl, true, false, none, some, List, [], ◌∷◌, ◌++◌, arith, codes,
  replicate, take,
}
use viuavm.Common.Throw.{ok, err}
use viuavm.Bytecode.Opcode.{to_byte}
use viuavm.Bytecode.Tables.{op_size}
use viuavm.Bytecode.Cursor.{Cursor, int_bytes, bool_byte}
use viuavm.Bytecode.Encode.{IntOp, operand_bytes}
use viuavm.Bytecode.Instruction.{Instruction, JumpType, emit}
use viuavm.Bytecode.Instruction.Layout.{
  IsWritable, IsEncodable, opcode, operands, layout, names, name_bytes, size_in_bytes,
}
use viuavm.Bytecode.Instruction.Emit.{emit_in_bounds}
use viuavm.Bytecode.Program.{insert_all, save_jumps}
use viuavm.Bytecode.Program.Walk.{
  code_of, bytes_of, instruction_length-layout, offset-code, offset-code_past,
}
use viuavm.Bytecode.Program.Offset.{
  Index, ProgramError, instruction_length, get_instruction_bytecode_offset,
}
use viuavm.Bytecode.Program.Insert.{
  branch_pointers, is_absolute, fresh, cursor_of, insert_all-fresh, insert_all-small,
  save_jumps-branch,
}

-- Register 1, by its number.
abbrev reg : IntOp
reg = (false, 1)

abbrev sample : List Instruction
sample =
    Instruction.istore reg (false, 300)
    ∷ Instruction.call reg (codes "f")
    ∷ Instruction.strstore reg (codes "'hi'")
    ∷ Instruction.end
    ∷ []

abbrev window : ℕ → Cursor
window n = record { before = 7 ∷ []; after = replicate n 0 }

istore_bytes :
    layout (Instruction.istore reg (true, 300)) ≡ 2 ∷ 0 ∷ 1 ∷ 0 ∷ 0 ∷ 0 ∷ 1 ∷ 44 ∷ 1 ∷ 0 ∷ 0 ∷ []
unfolding to_byte opcode operands operand_bytes int_bytes bool_byte
istore_bytes = refl

emit_in_bounds_example :
    emit (window 11) (Instruction.istore reg reg)
    ≡ some (record { before = 7 ∷ layout (Instruction.istore reg reg); after = [] })
unfolding op_size opcode operands name_bytes names operand_bytes int_bytes
emit_in_bounds_example = emit_in_bounds (window 11) (Instruction.istore reg reg) tt (omega arith)

instruction_length-layout_example :
    instruction_length (layout (Instruction.link (codes "io")) ++ 5 ∷ [])
    ≡ ok (size_in_bytes (Instruction.link (codes "io")))
unfolding names
instruction_length-layout_example =
    instruction_length-layout (Instruction.link (codes "io")) (5 ∷ []) (tt, omega arith)

sample-IsWritable : All IsWritable sample
sample-IsWritable = omega arith

sample-IsEncodable : All IsEncodable sample
unfolding names
sample-IsEncodable = omega arith

offset-code_example :
    get_instruction_bytecode_offset (code_of sample) (Index.from_start 2) none
    ≡ ok (bytes_of (take 2 sample))
offset-code_example = offset-code 2 sample none sample-IsEncodable (omega arith)

offset-code_past_example :
    get_instruction_bytecode_offset (code_of sample) (Index.from_start 4) none
    ≡ err ProgramError.offset_out_of_bounds
offset-code_past_example =
    offset-code_past 4 sample none sample-IsEncodable (omega arith) (omega arith)

insert_all-fresh_example :
    cursor_of (insert_all (fresh (replicate 29 0)) sample)
    ≡ some (record { before = code_of sample; after = [] })
unfolding op_size opcode name_bytes names
insert_all-fresh_example = insert_all-fresh sample (replicate 29 0) sample-IsWritable refl

insert_all-small_example : insert_all (fresh (replicate 28 0)) sample ≡ none
unfolding op_size opcode name_bytes names
insert_all-small_example =
    insert_all-small (fresh (replicate 28 0)) sample sample-IsWritable (omega arith)

save_jumps-branch_example :
    save_jumps (fresh []) (Instruction.branch reg 3 JumpType.absolute 0 JumpType.relative) ≡ (
      if is_absolute JumpType.absolute
      then record (fresh []) {
        branches_absolute = [] ++ branch_pointers 0 JumpType.absolute JumpType.relative;
      }
      else record (fresh []) {
        branches = [] ++ branch_pointers 0 JumpType.absolute JumpType.relative;
      })
save_jumps-branch_example = save_jumps-branch (fresh []) reg 3 0 JumpType.absolute JumpType.relative
