-- ===== src/Bytecode/Program/Walk.antt =====
-- The offsets that `Program::getInstructionBytecodeOffset` finds in assembled code.
use Prim.Native.Nat.add
use viuavm.Common.{
  drop-length_append, ℕ, zero, suc, ◌+◌, ◌<◌, ◌≤◌, ◌≡◌, refl, sym, ap, ◌∙◌, true, false, Option,
  none, some, List, [], ◌∷◌, ◌++◌, arith, length, drop, take, leb, Text, All, append_assoc,
  length-append, le→leb, lt→leb,
}
use viuavm.Common.Throw.{ok, err}
use viuavm.Bytecode.Opcode.{of_byte-to_byte}
use viuavm.Bytecode.Tables.{op_size}
use viuavm.Bytecode.Cursor.{int_bytes}
use viuavm.Bytecode.Encode.{operand_bytes, c_string_bytes, unquoted}
use viuavm.Bytecode.Instruction.{Instruction}
use viuavm.Bytecode.Instruction.Layout.{
  opcode, operands, layout, names, name_bytes, size_in_bytes, IsNulFree, IsEncodable,
}
use viuavm.Bytecode.Instruction.Emit.{length-layout}
use viuavm.Bytecode.Program.Offset.{
  ProgramError, c_string, name_length, two_names_length, names_length, length_of,
  instruction_length, offset_loop, Index, rounds, get_instruction_bytecode_offset,
}

c_string-bytes : (s rest : Text) → IsNulFree s → c_string (c_string_bytes s ++ rest) ≡ ok s
unfolding c_string c_string_bytes
c_string-bytes [] rest h = refl
c_string-bytes (c ∷ s) rest h = ground (arith, c_string-bytes s rest h.1)

drop-c_string_bytes : (s rest : List ℕ) → drop (length s + 1) (c_string_bytes s ++ rest) ≡ rest
unfolding c_string_bytes
drop-c_string_bytes [] rest = refl
drop-c_string_bytes (c ∷ s) rest = rw add.suc (drop-c_string_bytes s rest)

drop_add {ℓ} : {A : Type ℓ} (m n : ℕ) (xs : List A) → drop (m + n) xs ≡ drop n (drop m xs)
drop_add zero n xs = rw add.zero refl
drop_add (suc m) zero [] = rw (add.suc) refl
drop_add (suc m) (suc n) [] = rw (add.suc) refl
drop_add (suc m) n (x ∷ xs) = rw add.suc (drop_add m n xs)

name_length-bytes :
    (at : ℕ) (code s rest : List ℕ)
    → drop at code ≡ c_string_bytes s ++ rest
    → IsNulFree s
    → name_length at code ≡ ok (length s + 1 + 0)
unfolding name_length
name_length-bytes at code s rest e h = rw (e, c_string-bytes s rest h) (ap ok (omega arith))

two_names_length-bytes :
    (at : ℕ) (code s t rest : List ℕ)
    → drop at code ≡ (c_string_bytes s ++ c_string_bytes t) ++ rest
    → IsNulFree s
    → IsNulFree t
    → two_names_length at code ≡ ok ((length s + 1) + (length t + 1 + 0))
unfolding two_names_length
two_names_length-bytes at code s t rest e h k =
    rw (first, c_string-bytes s (c_string_bytes t ++ rest) h, second, c_string-bytes t rest k)
      (ap ok (omega arith))
  where
    first : drop at code ≡ c_string_bytes s ++ (c_string_bytes t ++ rest)
    first = e ∙ append_assoc (c_string_bytes s) (c_string_bytes t) rest

    second : drop (at + length s + 1) code ≡ c_string_bytes t ++ rest
    second =
        let regroup : at + length s + 1 ≡ at + (length s + 1) = omega arith in
        rw (regroup, drop_add at (length s + 1) code, first)
          (drop-c_string_bytes s (c_string_bytes t ++ rest))

names_length-layout :
    (i : Instruction) (rest : List ℕ)
    → IsEncodable i
    → names_length (opcode i) (layout i ++ rest) ≡ ok (name_bytes i)
unfolding names_length opcode operands names name_bytes operand_bytes int_bytes op_size
names_length-layout Instruction.nop rest h = refl
names_length-layout (Instruction.vmattach a f m) rest h =
    two_names_length-bytes 6 _ f m rest refl h.1.0 h.1.1.0
names_length-layout (Instruction.vmcatch t b) rest h =
    two_names_length-bytes 1 _ (unquoted t) b rest refl h.1.0 h.1.1.0
names_length-layout (Instruction.strstore a s) rest h = name_length-bytes 6 _ _ rest refl h.1.0
names_length-layout (Instruction.closure a s) rest h = name_length-bytes 6 _ s rest refl h.1.0
names_length-layout (Instruction.function a s) rest h = name_length-bytes 6 _ s rest refl h.1.0
names_length-layout (Instruction.call a s) rest h = name_length-bytes 6 _ s rest refl h.1.0
names_length-layout (Instruction.vmclass a s) rest h = name_length-bytes 6 _ s rest refl h.1.0
names_length-layout (Instruction.vmderive a s) rest h = name_length-bytes 6 _ s rest refl h.1.0
names_length-layout (Instruction.vmnew a s) rest h = name_length-bytes 6 _ s rest refl h.1.0
names_length-layout (Instruction.vmmsg a s) rest h = name_length-bytes 6 _ s rest refl h.1.0
names_length-layout (Instruction.vmenter s) rest h = name_length-bytes 1 _ s rest refl h.1.0
names_length-layout (Instruction.link s) rest h = name_length-bytes 1 _ s rest refl h.1.0
names_length-layout (Instruction.import s) rest h = name_length-bytes 1 _ _ rest refl h.1.0
names_length-layout _ rest h = refl

-- On the bytes of a writable instruction without NUL in its names, whatever follows them, the offset
-- search finds as length what the size tables give.
pub instruction_length-layout :
    (i : Instruction) (rest : List ℕ)
    → IsEncodable i
    → instruction_length (layout i ++ rest) ≡ ok (size_in_bytes i)
unfolding instruction_length length_of
instruction_length-layout i rest h = rw (of_byte-to_byte, names_length-layout i rest h) refl

-- The bytes of a sequence of instructions, and their number.
abbrev pub code_of : List Instruction → List ℕ
code_of [] = []
code_of (i ∷ is) = layout i ++ code_of is

abbrev pub bytes_of : List Instruction → ℕ
bytes_of [] = 0
bytes_of (i ∷ is) = size_in_bytes i + bytes_of is

pub length-code_of :
    (is : List Instruction) → All IsEncodable is → length (code_of is) ≡ bytes_of is
length-code_of [] h = refl
length-code_of (i ∷ is) h =
    omega
      (arith, length-append (layout i) (code_of is), length-layout i h.0.0, length-code_of is h.1)

code_of_pos : (is : List Instruction) → 0 < length is → 0 < length (code_of is)
code_of_pos [] h = h
code_of_pos (i ∷ is) h = omega arith

-- One round, from the first byte of an instruction that another one follows.
offset_loop-step :
    (n : ℕ) (i : Instruction) (before rest : List ℕ)
    → IsEncodable i
    → 0 < length rest
    → offset_loop (suc n) (before ++ (layout i ++ rest)) (length before)
      ≡ offset_loop n ((before ++ layout i) ++ rest) (length (before ++ layout i))
unfolding offset_loop
offset_loop-step n i before rest h pos =
    rw (drop-length_append before (layout i ++ rest), instruction_length-layout i rest h, room)
      (rw (sym (append_assoc before (layout i) rest)) (ap (offset_loop n _) moved))
  where
    moved : length before + size_in_bytes i ≡ length (before ++ layout i)
    moved = omega (arith, length-append before (layout i), length-layout i h.0)

    room : leb (length before + size_in_bytes i + 1) (length (before ++ (layout i ++ rest))) ≡ true
    room = le→leb _ _ (
        omega (
          arith,
          length-append before (layout i ++ rest),
          length-append (layout i) rest,
          length-layout i h.0,
        ))

offset_loop-code :
    (n : ℕ) (is : List Instruction) (before : List ℕ)
    → All IsEncodable is
    → n < length is
    → offset_loop n (before ++ code_of is) (length before)
      ≡ ok (length before + bytes_of (take n is))
offset_loop-code zero is before h lt = unfold offset_loop in ap ok (omega arith)
offset_loop-code (suc n) [] before h lt = absurd (omega arith)
offset_loop-code (suc n) (i ∷ is) before h lt =
    offset_loop-step n i before (code_of is) h.0 (code_of_pos is (omega arith))
    ∙ offset_loop-code n is (before ++ layout i) h.1 (omega arith)
    ∙ ap ok (omega (arith, length-append before (layout i), length-layout i h.0.0))

-- In the code of writable instructions without NUL in their names the offset of the instruction with
-- a given index is the number of bytes of the instructions before it, whatever count is passed.
pub offset-code :
    (n : ℕ) (is : List Instruction) (count : Option ℕ)
    → All IsEncodable is
    → n < length is
    → get_instruction_bytecode_offset (code_of is) (Index.from_start n) count
      ≡ ok (bytes_of (take n is))
unfolding get_instruction_bytecode_offset rounds
offset-code n is none h lt = offset_loop-code n is [] h lt ∙ ap ok (omega arith)
offset-code n is (some c) h lt = offset_loop-code n is [] h lt ∙ ap ok (omega arith)

offset_loop-last :
    (n : ℕ) (i : Instruction) (before : List ℕ)
    → IsEncodable i
    → offset_loop (suc n) (before ++ (layout i ++ [])) (length before)
      ≡ err ProgramError.offset_out_of_bounds
unfolding offset_loop
offset_loop-last n i before h =
    rw (drop-length_append before (layout i ++ []), instruction_length-layout i [] h, no_room) refl
  where
    no_room :
        leb (length before + size_in_bytes i + 1) (length (before ++ (layout i ++ []))) ≡ false
    no_room = lt→leb _ _ (
        omega (
          arith,
          length-append before (layout i ++ []),
          length-append (layout i) [],
          length-layout i h.0,
        ))

offset_loop-past :
    (is : List Instruction) (n : ℕ) (before : List ℕ)
    → All IsEncodable is
    → length is ≤ n
    → 0 < length is
    → offset_loop n (before ++ code_of is) (length before) ≡ err ProgramError.offset_out_of_bounds
offset_loop-past [] n before h le pos = absurd (omega arith)
offset_loop-past (i ∷ []) zero before h le pos = absurd (omega arith)
offset_loop-past (i ∷ []) (suc n) before h le pos = offset_loop-last n i before h.0
offset_loop-past (i ∷ (j ∷ is)) zero before h le pos = absurd (omega arith)
offset_loop-past (i ∷ (j ∷ is)) (suc n) before h le pos =
    offset_loop-step n i before (code_of (j ∷ is)) h.0 (code_of_pos (j ∷ is) (omega arith))
    ∙ offset_loop-past (j ∷ is) n (before ++ layout i) h.1 (omega arith) (omega arith)

-- In the code of at least one such instruction an index past the last one is refused: no position
-- outside of the code is answered.
pub offset-code_past :
    (n : ℕ) (is : List Instruction) (count : Option ℕ)
    → All IsEncodable is
    → 0 < length is
    → length is ≤ n
    → get_instruction_bytecode_offset (code_of is) (Index.from_start n) count
      ≡ err ProgramError.offset_out_of_bounds
unfolding get_instruction_bytecode_offset rounds
offset-code_past n is none h pos le = offset_loop-past is n [] h le pos
offset-code_past n is (some c) h pos le = offset_loop-past is n [] h le pos
