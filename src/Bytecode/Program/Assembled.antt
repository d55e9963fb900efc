-- ===== src/Bytecode/Program/Assembled.antt =====
-- A body of code from its lines to its bytes: `countBytes`, an array of that size, and the insertions.
use viuavm.Common.{
  length-replicate, ap, arith, ◌∙◌, ◌%◌, [], none, some, replicate, ◌≡◌, ℕ, ◌≤◌, ◌<◌, All, List,
  Text,
}
use viuavm.Common.Throw.{ok}
use viuavm.Bytecode.Encode.{IntOp}
use viuavm.Bytecode.Instruction.{Instruction}
use viuavm.Bytecode.Instruction.Layout.{IsWritable}
use viuavm.Bytecode.Program.{insert_all}
use viuavm.Bytecode.Program.Walk.{code_of, bytes_of}
use viuavm.Bytecode.Program.Insert.{fresh, cursor_of, insert_all-fresh, insert_all-small}
use viuavm.Bytecode.Program.Count.{count_bytes}
use viuavm.Bytecode.Program.Counted.{IsPrintable, lines_of, count_bytes-lines_of}
use viuavm.Text.Words.{IsWord}

module _ (show : IntOp → Text) (plain : Instruction → List Text)
    (show-IsWord : (a : IntOp) → IsWord (show a)) where
  -- Of less than 2^16 bytes of code, whose operands are written as words, whose names are words and whose
  -- quoted texts are not empty and have no backslashes, `countBytes` of the lines is the size of an array
  -- that the insertions of the instructions fill exactly, with the code of the instructions.
  pub count_bytes-insert_all :
      (is : List Instruction)
      → All IsPrintable is
      → All IsWritable is
      → bytes_of is < 65536
      → (n : ℕ) × (count_bytes (lines_of show plain is) ≡ ok n)
        × (cursor_of (insert_all (fresh (replicate n 0)) is)
            ≡ some (record { before = code_of is; after = [] }))
  count_bytes-insert_all is p w small = (
    bytes_of is,
    count_bytes-lines_of show plain show-IsWord is p ∙ ap ok (omega arith),
    insert_all-fresh is (replicate (bytes_of is) 0) w (length-replicate (bytes_of is) 0),
  )

  -- Of such code of 2^16 bytes or more, `countBytes` answers a size that is too small: some instruction
  -- would be written past the end of the array.
  pub count_bytes_overflow :
      (is : List Instruction)
      → All IsPrintable is
      → All IsWritable is
      → 65536 ≤ bytes_of is
      → (n : ℕ) × (count_bytes (lines_of show plain is) ≡ ok n)
        × (insert_all (fresh (replicate n 0)) is ≡ none)
  count_bytes_overflow is p w large = (
    bytes_of is % 65536,
    count_bytes-lines_of show plain show-IsWord is p,
    insert_all-small (fresh (replicate (bytes_of is % 65536) 0)) is w
        (omega (arith, length-replicate {A = ℕ} (bytes_of is % 65536) 0)),
  )
