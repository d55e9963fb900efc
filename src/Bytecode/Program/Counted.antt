-- ===== src/Bytecode/Program/Counted.antt =====
-- `countBytes` on the lines that instructions are written as, against the bytes of the instructions.
use viuavm.Common.{
  ◌∙◌, Option, ap, ◌%◌, false, ℕ, ◌==◌, ◌<◌, ◌+◌, length, arith, List, ◌≡◌, All, Text,
  if◌then◌else◌, [], ◌∷◌,
}
use viuavm.Common.Throw.{ok, err}
use viuavm.Bytecode.Opcode.{Opcode}
use viuavm.Bytecode.Tables.{op_size}
use viuavm.Bytecode.Encode.{IntOp}
use viuavm.Bytecode.Instruction.{Instruction}
use viuavm.Bytecode.Instruction.Layout.{opcode, names, name_bytes, size_in_bytes}
use viuavm.Bytecode.Program.Walk.{bytes_of}
use viuavm.Bytecode.Program.Count.{
  instruction_to_opcode, opcode_bytes, CountError, without_chunk, chunk_bytes, callee_bytes,
  names_in_line, line_bytes, is_directive, add16, count_lines, count_bytes,
}
use viuavm.Bytecode.Program.Lines.{
  third_word, word_behind_literal, literal_counted, one_word, no_directive, literal-Starts,
  callee_word, second_word, spaced-Starts, IsLiteral, op_size-positive,
  instruction_to_opcode-mnemonic, spaced, mnemonic, chunk-spaced, without_chunk-spaced,
  mnemonic-is_mnemonic, mnemonic-IsWord,
}
use viuavm.Text.Words.{IsWord, Starts, lstrip-Starts_eq}

-- The names of an instruction are words, its quoted texts are literals.
abbrev pub IsPrintable : Instruction → Type 0
IsPrintable (Instruction.strstore reg s) = IsLiteral s
IsPrintable (Instruction.import module_name) = IsLiteral module_name
IsPrintable (Instruction.vmcatch type_name block_name) = IsLiteral type_name × IsWord block_name
IsPrintable i = All IsWord (names i)

-- How a register operand is written, and the operands of the instructions without names.
module _ (show : IntOp → Text) (plain : Instruction → List Text) where
  abbrev pub arguments : Instruction → List Text
  arguments (Instruction.strstore reg s) = show reg ∷ s ∷ []
  arguments (Instruction.closure reg fn) = show reg ∷ fn ∷ []
  arguments (Instruction.function reg fn) = show reg ∷ fn ∷ []
  arguments (Instruction.call reg fn_name) = show reg ∷ fn_name ∷ []
  arguments (Instruction.vmcatch type_name block_name) = type_name ∷ block_name ∷ []
  arguments (Instruction.vmenter block_name) = block_name ∷ []
  arguments (Instruction.import module_name) = module_name ∷ []
  arguments (Instruction.link module_name) = module_name ∷ []
  arguments (Instruction.vmclass reg class_name) = show reg ∷ class_name ∷ []
  arguments (Instruction.vmderive reg base_class_name) = show reg ∷ base_class_name ∷ []
  arguments (Instruction.vmattach reg function_name method_name) =
      show reg ∷ function_name ∷ method_name ∷ []
  arguments (Instruction.vmnew reg class_name) = show reg ∷ class_name ∷ []
  arguments (Instruction.vmmsg reg method_name) = show reg ∷ method_name ∷ []
  arguments i = plain i

  abbrev pub line_of : Instruction → Text
  line_of i = spaced (mnemonic (opcode i) ∷ arguments i)

  abbrev pub lines_of : List Instruction → List Text
  lines_of [] = []
  lines_of (i ∷ is) = line_of i ∷ lines_of is

module _ (show : IntOp → Text) (plain : Instruction → List Text)
    (show-IsWord : (a : IntOp) → IsWord (show a)) where
  -- Behind the mnemonic.
  behind :
      (op : Opcode) (ws : List Text)
      → Starts (spaced ws)
      → without_chunk (spaced (mnemonic op ∷ ws)) ≡ spaced ws
  behind op ws = without_chunk-spaced (mnemonic op) ws (mnemonic-IsWord _ (mnemonic-is_mnemonic op))

  behind_register :
      (op : Opcode) (reg : IntOp) (ws : List Text)
      → without_chunk (spaced (mnemonic op ∷ show reg ∷ ws)) ≡ spaced (show reg ∷ ws)
  behind_register op reg ws =
      behind op (show reg ∷ ws) (spaced-Starts (show reg) ws (show-IsWord reg))

  register_name :
      (op : Opcode) (reg : IntOp) (w : Text) (ws : List Text) (inc : ℕ)
      → IsWord w
      → inc + chunk_bytes (without_chunk (without_chunk (spaced (mnemonic op ∷ show reg ∷ w ∷ ws))))
        ≡ inc + (length w + 1 + 0)
  register_name op reg w ws inc h =
      rw (behind_register op reg (w ∷ ws), second_word (show reg) w ws (show-IsWord reg) h)
        (omega arith)

  callee_name :
      (op : Opcode) (reg : IntOp) (w : Text) (inc : ℕ)
      → IsWord w
      → inc + callee_bytes (without_chunk (spaced (mnemonic op ∷ show reg ∷ w ∷ [])))
        ≡ inc + (length w + 1 + 0)
  callee_name op reg w inc h =
      rw (behind_register op reg (w ∷ []), callee_word (show reg) w (show-IsWord reg) h)
        (omega arith)

  only_name :
      (op : Opcode) (w : Text) (inc : ℕ)
      → IsWord w
      → inc + chunk_bytes (without_chunk (spaced (mnemonic op ∷ w ∷ []))) ≡ inc + (length w + 1 + 0)
  only_name op w inc h = rw (behind op (w ∷ []) (spaced-Starts w [] h), one_word w h) (omega arith)

  names_counted :
      (i : Instruction) (inc : ℕ)
      → IsPrintable i
      → names_in_line (opcode i) inc (without_chunk (line_of show plain i)) ≡ inc + name_bytes i
  unfolding names_in_line opcode names name_bytes
  names_counted (Instruction.strstore reg s) inc h =
      rw
        (
          behind_register Opcode.strstore reg (s ∷ []),
          without_chunk-spaced (show reg) (s ∷ []) (show-IsWord reg) (literal-Starts s [] h),
          literal_counted inc s [] h,
        )
        (omega arith)
  names_counted (Instruction.closure reg fn) inc h = register_name _ reg fn [] inc h.0
  names_counted (Instruction.function reg fn) inc h = register_name _ reg fn [] inc h.0
  names_counted (Instruction.vmclass reg n) inc h = register_name _ reg n [] inc h.0
  names_counted (Instruction.vmderive reg n) inc h = register_name _ reg n [] inc h.0
  names_counted (Instruction.vmnew reg n) inc h = register_name _ reg n [] inc h.0
  names_counted (Instruction.call reg fn) inc h = callee_name _ reg fn inc h.0
  names_counted (Instruction.vmmsg reg n) inc h = callee_name _ reg n inc h.0
  names_counted (Instruction.vmenter n) inc h = only_name _ n inc h.0
  names_counted (Instruction.link n) inc h = only_name _ n inc h.0
  names_counted (Instruction.import s) inc h =
      rw (behind Opcode.import (s ∷ []) (literal-Starts s [] h), literal_counted inc s [] h)
        (omega arith)
  names_counted (Instruction.vmcatch s b) inc h =
      rw
        (
          behind Opcode.catch (s ∷ b ∷ []) (literal-Starts s (b ∷ []) h.0),
          literal_counted inc s (b ∷ []) h.0,
          word_behind_literal s b h.0 h.1,
        )
        (omega arith)
  names_counted (Instruction.vmattach reg f m) inc h =
      rw
        (
          behind_register Opcode.attach reg (f ∷ m ∷ []),
          second_word (show reg) f (m ∷ []) (show-IsWord reg) h.0,
          third_word (show reg) f m (show-IsWord reg) h.0 h.1.0,
        )
        (omega arith)
  names_counted _ inc h = omega arith

  line_bytes-line_of :
      (i : Instruction) → IsPrintable i → line_bytes (line_of show plain i) ≡ ok (size_in_bytes i)
  unfolding line_bytes opcode_bytes
  line_bytes-line_of i h =
      let op = opcode i in
      let line = line_of show plain i in
      ap (λ (o : Option Opcode). opcode_bytes o line)
        (ap instruction_to_opcode (
            chunk-spaced (mnemonic op) (arguments show plain i)
              (mnemonic-IsWord _ (mnemonic-is_mnemonic op)))
          ∙ instruction_to_opcode-mnemonic op)
      ∙ rw (names_counted i (op_size op) h)
          (positive (size_in_bytes i) (omega (arith, op_size-positive op)))
    where
      positive :
          (n : ℕ) → 0 < n → (if n == 0 then err CountError.requires_no_bytes else ok n) ≡ ok n
      positive n h = ground arith

  line_of-Starts : (i : Instruction) → Starts (line_of show plain i)
  line_of-Starts i =
      spaced-Starts _ (arguments show plain i) (mnemonic-IsWord _ (mnemonic-is_mnemonic (opcode i)))

  line_of-no_directive : (i : Instruction) → is_directive (line_of show plain i) ≡ false
  line_of-no_directive i =
      no_directive (mnemonic (opcode i)) (arguments show plain i) (mnemonic-is_mnemonic (opcode i))

  count_lines-lines_of :
      (is : List Instruction) (bytes : ℕ)
      → All IsPrintable is
      → bytes < 65536
      → count_lines bytes (lines_of show plain is) ≡ ok ((bytes + bytes_of is) % 65536)
  unfolding count_lines add16
  count_lines-lines_of [] bytes h small = ap ok (omega arith)
  count_lines-lines_of (i ∷ is) bytes h small =
      rw
        (
          lstrip-Starts_eq (line_of show plain i) (line_of-Starts i),
          line_of-no_directive i,
          line_bytes-line_of i h.0,
        )
        (count_lines-lines_of is ((bytes + size_in_bytes i) % 65536) h.1 (omega arith)
          ∙ ap ok (omega arith))

  -- For the lines of instructions whose names are words and whose quoted texts have no backslashes, and
  -- whose register operands are written as words, `countBytes` answers the number of bytes that the
  -- encoders write, modulo 2^16.
  pub count_bytes-lines_of :
      (is : List Instruction)
      → All IsPrintable is
      → count_bytes (lines_of show plain is) ≡ ok (bytes_of is % 65536)
  unfolding count_bytes
  count_bytes-lines_of is h = count_lines-lines_of is 0 h (omega arith) ∙ ap ok (omega arith)
