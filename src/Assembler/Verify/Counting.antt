-- ===== src/Assembler/Verify/Counting.antt =====
-- The check of the instructions, and what it guarantees for `countBytes`.
use Prim.Native.String.{String}
use viuavm.Common.{
  =ᵗ-eq, ◌&&◌, codes, Bool, ◌=ᵗ◌, subst, Bool-cases, ◌==◌, if◌then◌else◌, arith, inr, inl, All,
  refl, List, ◌≡◌, ◌≢◌, ℕ, Text, Option, [], ◌∷◌, none, some, true, false, zero, suc,
}
use viuavm.Common.Throw.{◌>>=◌}
use viuavm.Common.Throw.{Result, ok, err}
use viuavm.Bytecode.Program.Count.{
  find_opcode, CountError, unrecognised_instruction, instruction_to_opcode, opcode_bytes,
  line_bytes, count_lines, count_bytes, add16, is_directive,
}
use viuavm.Text.{lstrip, chunk}
use viuavm.Assembler.Verify.{◌=ᵗ◌, SourceLines}
use viuavm.Assembler.Verify.Checks.{has_size, unknown_instruction, instructions}
use viuavm.Bytecode.Opcode.{Opcode}
use viuavm.Assembler.Verify.Reports.{scan-All}
use viuavm.Bytecode.Tables.{op_name, sized_instructions}
use viuavm.Cpu.Machine.{is_some}

-- A line that is neither empty nor a comment.
abbrev pub IsCode : Text → Type 0
IsCode [] = ⊥
IsCode (c ∷ line) = c ≢ 59

abbrev Recognised : Result CountError ℕ → Type 0
Recognised (err (unrecognised_instruction s)) = ⊥
Recognised _ = Unit

counted_or_empty : (n : ℕ) → Recognised (if n == 0 then err CountError.requires_no_bytes else ok n)
counted_or_empty zero = tt
counted_or_empty (suc n) = elim (Bool-cases (suc n == 0)) [
  | inl empty ↦ rw empty tt
  | inr counted ↦ rw counted tt
]

opcode_bytes-Recognised :
    (o : Option Opcode) (line : Text) → o ≢ none → Recognised (opcode_bytes o line)
unfolding opcode_bytes
opcode_bytes-Recognised none line h = absurd (h refl)
opcode_bytes-Recognised (some op) line h = counted_or_empty _

-- Every key of OP_SIZES is among OP_NAMES.
abbrev all_named : List String → Bool
all_named [] = true
all_named (name ∷ names) = is_some (instruction_to_opcode (codes name)) && all_named names

sizes_named : all_named sized_instructions ≡ true
unfolding sized_instructions instruction_to_opcode find_opcode op_name ◌=ᵗ◌
sizes_named = refl

has_size-named :
    (token : Text) (names : List String)
    → all_named names ≡ true
    → has_size token names ≡ true
    → is_some (instruction_to_opcode token) ≡ true
unfolding has_size
has_size-named token [] named h = cc
has_size-named token (name ∷ names) named h = elim (Bool-cases (codes name =ᵗ token)) [
  | inl same ↦
      subst (λ t. is_some (instruction_to_opcode t) ≡ true) (=ᵗ-eq (codes name) token same)
        (ground arith)
  | inr other ↦ has_size-named token names (ground arith) (ground (arith, other))
]

line_bytes-Recognised :
    (line : Text)
    → IsCode line
    → is_directive line ≡ false
    → unknown_instruction line ≡ none
    → Recognised (line_bytes line)
unfolding unknown_instruction line_bytes
line_bytes-Recognised [] h d e = absurd h
line_bytes-Recognised (c ∷ line) h d e =
    elim (Bool-cases (has_size (chunk (c ∷ line) true) sized_instructions)) [
      | inl sized ↦
          opcode_bytes-Recognised _ (c ∷ line)
            (some_not_none _ (has_size-named (chunk (c ∷ line) true) _ sizes_named sized))
      | inr missing ↦ absurd (ground arith)
    ]
  where
    some_not_none : (o : Option Opcode) → is_some o ≡ true → o ≢ none
    some_not_none none h e = cc
    some_not_none (some op) h e = cc

count_lines-Recognised :
    (lines : List Text) (bytes : ℕ)
    → All (λ line. IsCode (lstrip line)) lines
    → All (λ line. unknown_instruction (lstrip line) ≡ none) lines
    → Recognised (count_lines bytes lines)
unfolding count_lines
count_lines-Recognised [] bytes h k = tt
count_lines-Recognised (line ∷ lines) bytes h k = elim (Bool-cases (is_directive (lstrip line))) [
  | inl directive ↦ rw directive (count_lines-Recognised lines bytes h.1 k.1)
  | inr code ↦ rw code (
      then_Recognised (line_bytes (lstrip line)) (λ inc. count_lines (add16 bytes inc) lines)
        (line_bytes-Recognised (lstrip line) h.0 code k.0)
        (λ inc. count_lines-Recognised lines (add16 bytes inc) h.1 k.1))
]
  where
    then_Recognised :
        (r : Result CountError ℕ) (f : ℕ → Result CountError ℕ)
        → Recognised r
        → ((n : ℕ) → Recognised (f n))
        → Recognised (r >>= f)
    then_Recognised (ok n) f h k = k n
    then_Recognised (err (unrecognised_instruction s)) f h k = h
    then_Recognised (err CountError.requires_no_bytes) f h k = tt

-- On lines that are neither empty nor comments, and that the check `instructions` has nothing against,
-- `countBytes` does not throw that an instruction is unrecognised.
pub instructions-count_bytes :
    (lines : List Text) (expanded : SourceLines) (s : Text)
    → All (λ line. IsCode (lstrip line)) lines
    → instructions lines expanded ≡ some []
    → count_bytes lines ≢ err (unrecognised_instruction s)
unfolding instructions count_bytes
instructions-count_bytes lines expanded s h clean e =
    subst Recognised e
      (count_lines-Recognised lines 0 h (scan-All unknown_instruction expanded 0 lines clean))
