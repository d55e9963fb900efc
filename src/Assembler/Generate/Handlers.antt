-- ===== src/Assembler/Generate/Handlers.antt =====
-- src/front/asm/generate.cpp: what `compile` does with the operands of a line.
use viuavm.Common.{ℕ, ◌+◌, true, List, [], ◌∷◌, Text, codes}
use viuavm.Common.Throw.{Result, ok, ◌>>=◌}
use viuavm.Text.{chunk, extract}
use viuavm.Bytecode.Encode.{IntOp, Float}
use viuavm.Bytecode.Instruction.{JumpType, Instruction}
use viuavm.Bytecode.Program.Count.{without_chunk}
use viuavm.Assembler.Operands.{NumberError, get_byte, get2, get3}
use viuavm.Assembler.Generate.{
  GenerateError, numeric, resolve_register, resolve_jump, register, three_registers, Target,
}

abbrev pub or_default : Text → Text → Text
or_default [] default = default
or_default (c ∷ s) default = c ∷ s

-- The method of `Program` that is called, with its arguments.
abbrev pub Compiled : Type 0
Compiled = Result GenerateError Instruction

-- `if (b_chnk.size() == 0) { b_chnk = a_chnk; }`
abbrev pub in_place : Text × Text → Text × Text
in_place (a, b) = (a, or_default b a)

abbrev pub frame_sizes : Text × Text → Text × Text
frame_sizes (a, b) = (or_default a (codes "0"), or_default b (codes "16"))

-- An empty second or third operand has a default.
abbrev pub with_defaults : Text → Text → Text × Text × Text → Text × Text × Text
with_defaults dst pos (a, b, c) = (a, or_default b dst, or_default c pos)

-- A call with one operand is a call of that function, and discards the result.
abbrev pub callee : Text × Text → Text × Text
callee (reg, []) = (codes "0", reg)
callee (reg, c ∷ fn_name) = (reg, c ∷ fn_name)

abbrev pub jump_of : List (Text × ℕ) → ℕ → Text → Compiled
jump_of marks i target = resolve_jump target marks i >>= λ t. ok (Instruction.jump t.0 t.1)

-- `names` are the named registers.
module _ (names : List (Text × ℕ)) where
  abbrev pub one : (IntOp → Instruction) → Text → Compiled
  one method operands = register names (chunk operands true) >>= λ a. ok (method a)

  abbrev pub two_of : (IntOp → IntOp → Instruction) → Text × Text → Compiled
  two_of method (a, b) = register names a >>= λ a'. register names b >>= λ b'. ok (method a' b')

  abbrev pub two : (IntOp → IntOp → Instruction) → Text → Compiled
  two method operands = two_of method (get2 operands)

  abbrev pub conversion : (IntOp → IntOp → Instruction) → Text → Compiled
  conversion method operands = two_of method (in_place (get2 operands))

  abbrev pub three_of : (IntOp → IntOp → IntOp → Instruction) → Text × Text × Text → Compiled
  three_of method (a, b, c) = register names a >>= λ a'.
      register names b >>= λ b'. register names c >>= λ c'. ok (method a' b' c')

  abbrev pub three_intop : (IntOp → IntOp → IntOp → Instruction) → Text → Compiled
  three_intop method operands =
      three_registers names (get3 operands true) >>= λ ops. ok (method ops.0 ops.1 ops.2)

  abbrev pub named_of : (IntOp → Text → Instruction) → Text × Text → Compiled
  named_of method (reg, name) = register names reg >>= λ a. ok (method a name)

  abbrev pub named : (IntOp → Text → Instruction) → Text → Compiled
  named method operands = named_of method (get2 operands)

  abbrev pub attach_of : Text × Text × Text → Compiled
  attach_of (reg, function_name, method_name) =
      register names reg >>= λ a. ok (Instruction.vmattach a function_name method_name)

  abbrev pub bstore_of : Text × Text → Compiled
  bstore_of (reg, byte_chnk) = register names reg >>= λ a. resolve_register byte_chnk names >>= λ s.
      numeric (get_byte s) >>= λ b. ok (Instruction.bstore a b)

  abbrev pub strstore_of : Text → Compiled
  strstore_of operands = register names (chunk operands true) >>= λ a.
      ok (Instruction.strstore a (extract (without_chunk operands)))

-- `marks` are the markers, `stod` reads a `double`, and `i` is the index of the instruction, for which
-- `compile` has two equal counters.
module _ (stod : Text → Result NumberError Float) (names marks : List (Text × ℕ)) (i : ℕ) where
  abbrev pub fstore_of : Text × Text → Compiled
  fstore_of (reg, float_chnk) =
      register names reg >>= λ a. numeric (stod float_chnk) >>= λ f. ok (Instruction.fstore a f)

  -- Without a third operand the jump is to the next instruction.
  abbrev pub false_target : Text → Result GenerateError Target
  false_target [] = ok (i + 1, JumpType.relative)
  false_target (c ∷ s) = resolve_jump (c ∷ s) marks i

  abbrev pub branch_of : Text × Text × Text → Compiled
  branch_of (condition, if_true, if_false) = resolve_jump if_true marks i >>= λ t.
      false_target if_false >>= λ f.
      register names condition >>= λ a. ok (Instruction.branch a t.0 t.1 f.0 f.1)
