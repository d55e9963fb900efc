-- ===== src/Tests/Decoding.antt =====
-- The theorems on reading what the assembler wrote, at small buffers.
use viuavm.Common.{
  ℕ, ◌+◌, ◌-◌, ◌≡◌, refl, arith, true, false, some, List, [], ◌∷◌, get_or, codes, replicate,
}
use viuavm.Common.Throw.{ok}
use viuavm.Bytecode.Opcode.{Opcode, of_byte, to_byte}
use viuavm.Bytecode.Cursor.{Cursor, put, put_bool, put_int, put_chars, bool_byte}
use viuavm.Bytecode.Encode.{
  insert_integer_operand, insert_three_integer_ops_instruction, put_c_string,
}
use viuavm.Bytecode.Encode.Control.{call}
use viuavm.Cpu.Machine.{Cpu}
use viuavm.Cpu.Machine.Operands.{operand, text_at}
use viuavm.Cpu.Machine.Decoding.{three_operands-insert_three, operand-call}
use viuavm.Cpu.Instructions.{three_operands}
use viuavm.Tests.Machine.{idle}

-- `iadd 3, @1, 2`, as the assembler writes it into a buffer of 16 bytes.
abbrev buffer : Cursor
buffer = record { before = []; after = replicate 16 7 }

abbrev sum_bytes : List ℕ
sum_bytes = 3 ∷ 0 ∷ 3 ∷ 0 ∷ 0 ∷ 0 ∷ 1 ∷ 1 ∷ 0 ∷ 0 ∷ 0 ∷ 0 ∷ 2 ∷ 0 ∷ 0 ∷ 0 ∷ []

abbrev summing : Cpu
summing = record idle { memory = λ a. get_or sum_bytes (a - 100) 0 }

three_operands-insert_three_example :
    (of_byte (summing.memory (100 + 0)) ≡ some Opcode.iadd)
    × (three_operands (100 + 0 + 1) summing ≡ ok (((false, 3), ((true, 1), (false, 2))), summing))
unfolding insert_three_integer_ops_instruction insert_integer_operand put put_bool put_int bool_byte
    to_byte
three_operands-insert_three_example =
    three_operands-insert_three summing 100 buffer (record { before = sum_bytes; after = [] })
      Opcode.iadd (false, 3) (true, 1) (false, 2) refl
      (
        refl,
        (
          refl,
          (
            refl,
            (
              refl,
              (
                refl,
                (
                  refl,
                  (
                    refl,
                    (refl, (refl, (refl, (refl, (refl, (refl, (refl, (refl, (refl, tt))))))))),
                  ),
                ),
              ),
            ),
          ),
        ),
      )
      (omega arith) (omega arith) (omega arith)

-- `call 1, f`
abbrev call_bytes : List ℕ
call_bytes = 69 ∷ 0 ∷ 1 ∷ 0 ∷ 0 ∷ 0 ∷ 102 ∷ 0 ∷ []

abbrev calling : Cpu
calling = record idle { memory = λ a. get_or call_bytes (a - 100) 0 }

operand-call_example :
    (of_byte (calling.memory (100 + 0)) ≡ some Opcode.call)
    × ((operand (100 + 0 + 1) calling ≡ ok ((false, 1), calling))
        × (text_at (100 + 0 + 6) calling ≡ ok (codes "f", calling)))
unfolding call insert_integer_operand put put_bool put_int bool_byte put_c_string put_chars to_byte
operand-call_example =
    operand-call calling 100 (record { before = []; after = replicate 8 7 })
      (record { before = call_bytes; after = [] }) (false, 1) (codes "f") refl
      (refl, (refl, (refl, (refl, (refl, (refl, (refl, (refl, tt)))))))) (omega arith)
      (omega arith, tt) (omega arith)
