-- ===== src/Assembler/Generate/Jumps.antt =====
-- src/front/asm/generate.cpp: `resolvejump` on written targets, and the jumps.
use viuavm.Common.{ℕ, ◌≡◌, refl, true, false, List, [], ◌∷◌, Text, arith}
use viuavm.Common.Throw.{Result, ok}
use viuavm.Text.{isnum_loop, isnum}
use viuavm.Text.Words.{sub-append, IsWord}
use viuavm.Bytecode.Encode.{Word, IntOp, Float}
use viuavm.Bytecode.Instruction.{Instruction}
use viuavm.Bytecode.Program.Lines.{spaced_one, spaced}
use viuavm.Assembler.Operands.{NumberError, get3}
use viuavm.Assembler.Operands.Decimal.{stoi-decimal, decimal, written}
use viuavm.Assembler.Generate.Written.{
  isnum-decimal, decimal-IsWord, written-IsWord, register-written, get3-spaced,
}
use viuavm.Assembler.Generate.Handlers.{branch_of, false_target, jump_of}
use viuavm.Assembler.Generate.{JumpType, resolve_jump}
use viuavm.Assembler.Generate.Source.{IsInt, IsTarget, target_text}

pub target-IsWord : (addr : Word) (kind : JumpType) → IsWord (target_text addr kind)
target-IsWord addr JumpType.absolute = (omega arith, (refl, (decimal-IsWord addr).1))
target-IsWord addr JumpType.relative = decimal-IsWord addr
target-IsWord addr JumpType.to_byte = decimal-IsWord addr

dot_digits : (n : ℕ) → isnum (46 ∷ decimal n) false ≡ false
unfolding isnum isnum_loop
dot_digits n = refl

module _ (marks : List (Text × ℕ)) (n : ℕ) where
  resolve_jump-target :
      (addr : Word) (kind : JumpType)
      → IsTarget addr kind
      → resolve_jump (target_text addr kind) marks n ≡ ok (addr, kind)
  unfolding resolve_jump
  resolve_jump-target addr JumpType.relative h =
      rw (isnum-decimal addr false, stoi-decimal addr h) refl
  resolve_jump-target addr JumpType.absolute h =
      rw
        (
          dot_digits addr,
          sub-append (46 ∷ []) (decimal addr),
          isnum-decimal addr true,
          stoi-decimal addr h,
        )
        refl
  resolve_jump-target addr JumpType.to_byte h = absurd h

  pub jump_lem :
      (addr : Word) (kind : JumpType)
      → IsTarget addr kind
      → jump_of marks n (spaced (target_text addr kind ∷ [])) ≡ ok (Instruction.jump addr kind)
  jump_lem addr kind h =
      rw (spaced_one (target_text addr kind), resolve_jump-target addr kind h) refl

  false_target-word :
      (stod : Text → Result NumberError Float) (names : List (Text × ℕ)) (s : Text)
      → IsWord s
      → false_target stod names marks n s ≡ resolve_jump s marks n
  false_target-word stod names [] h = absurd (omega (arith, h.0))
  false_target-word stod names (c ∷ s) h = refl

  pub branch_lem :
      (stod : Text → Result NumberError Float) (names : List (Text × ℕ)) (a : IntOp)
      (addr_truth : Word) (kind_truth : JumpType) (addr_false : Word) (kind_false : JumpType)
      → IsInt a × IsTarget addr_truth kind_truth × IsTarget addr_false kind_false
      → branch_of stod names marks n (
          get3
            (spaced (
              written a
              ∷ target_text addr_truth kind_truth
              ∷ target_text addr_false kind_false
              ∷ []))
            false)
        ≡ ok (Instruction.branch a addr_truth kind_truth addr_false kind_false)
  branch_lem stod names a addr_truth kind_truth addr_false kind_false h =
      rw
        (
          get3-spaced (written a) (target_text addr_truth kind_truth)
              (target_text addr_false kind_false) false (written-IsWord a)
              (target-IsWord addr_truth kind_truth) (target-IsWord addr_false kind_false),
          resolve_jump-target addr_truth kind_truth h.1,
          false_target-word stod names (target_text addr_false kind_false)
              (target-IsWord addr_false kind_false),
          resolve_jump-target addr_false kind_false h.2,
          register-written names a h.0,
        )
        refl
