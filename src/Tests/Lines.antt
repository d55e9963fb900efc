-- ===== src/Tests/Lines.antt =====
-- `countBytes` at concrete lines, and its theorems at concrete instructions.
use viuavm.Common.{
  some, none, refl, suc, replicate, ◌%◌, false, ℕ, ◌≡◌, All, codes, List, arith, Text, [], ◌∷◌,
  zero,
}
use viuavm.Common.Throw.{ok}
use viuavm.Bytecode.Encode.{IntOp}
use viuavm.Bytecode.Instruction.{Instruction}
use viuavm.Bytecode.Instruction.Layout.{name_bytes, opcode, names, IsWritable}
use viuavm.Bytecode.Tables.{op_size}
use viuavm.Bytecode.Program.{insert_all}
use viuavm.Bytecode.Program.Walk.{code_of, bytes_of}
use viuavm.Bytecode.Program.Insert.{fresh, cursor_of}
use viuavm.Bytecode.Program.Count.{count_bytes}
use viuavm.Bytecode.Program.Counted.{IsPrintable, lines_of, count_bytes-lines_of}
use viuavm.Bytecode.Program.Assembled.{count_bytes-insert_all, count_bytes_overflow}
use viuavm.Text.{escaped, enquote}
use viuavm.Text.Words.{IsWord}

-- Every register is written as register 1.
abbrev show_one : IntOp → Text
show_one a = codes "1"

show_one-IsWord : (a : IntOp) → IsWord (show_one a)
show_one-IsWord a = (omega arith, (refl, tt))

abbrev two_registers : Instruction → List Text
two_registers i = codes "1" ∷ codes "1" ∷ []

-- `strstore 1 "hi"`, `call 1 f` and `iadd 1 1`.
abbrev sample : List Instruction
sample =
    Instruction.strstore (false, 1) (enquote (codes "hi"))
    ∷ Instruction.call (false, 1) (codes "f")
    ∷ Instruction.iadd (false, 1) (false, 1) (false, 1)
    ∷ []

f-IsWord : IsWord (codes "f")
f-IsWord = (omega arith, (refl, tt))

sample-IsPrintable : All IsPrintable sample
unfolding names
sample-IsPrintable = ((codes "hi", omega arith, refl), ((f-IsWord, tt), (tt, tt)))

sample-IsWritable : All IsWritable sample
unfolding enquote
sample-IsWritable = (omega arith, (tt, (tt, tt)))

count_bytes-lines_of_example :
    count_bytes (lines_of show_one two_registers sample) ≡ ok (bytes_of sample % 65536)
count_bytes-lines_of_example =
    count_bytes-lines_of show_one two_registers show_one-IsWord sample sample-IsPrintable

count_bytes-insert_all_example :
    (n : ℕ) × (count_bytes (lines_of show_one two_registers sample) ≡ ok n)
    × (cursor_of (insert_all (fresh (replicate n 0)) sample)
        ≡ some (record { before = code_of sample; after = [] }))
unfolding op_size opcode name_bytes names enquote escaped
count_bytes-insert_all_example =
    count_bytes-insert_all show_one two_registers show_one-IsWord sample sample-IsPrintable
      sample-IsWritable (omega arith)

-- A program of 65536 instructions of one byte.
abbrev nops : ℕ → List Instruction
nops zero = []
nops (suc n) = Instruction.nop ∷ nops n

nops-IsPrintable : (n : ℕ) → All IsPrintable (nops n)
unfolding names
nops-IsPrintable zero = tt
nops-IsPrintable (suc n) = (tt, nops-IsPrintable n)

nops-IsWritable : (n : ℕ) → All IsWritable (nops n)
nops-IsWritable zero = tt
nops-IsWritable (suc n) = (tt, nops-IsWritable n)

bytes_of-nops : (n : ℕ) → bytes_of (nops n) ≡ n
unfolding op_size opcode name_bytes names
bytes_of-nops zero = refl
bytes_of-nops (suc n) = omega (arith, bytes_of-nops n)

count_bytes_overflow_example :
    (n : ℕ) × (count_bytes (lines_of show_one two_registers (nops 65536)) ≡ ok n)
    × (insert_all (fresh (replicate n 0)) (nops 65536) ≡ none)
count_bytes_overflow_example =
    count_bytes_overflow show_one two_registers show_one-IsWord (nops 65536)
      (nops-IsPrintable 65536) (nops-IsWritable 65536) (omega (arith, bytes_of-nops 65536))
