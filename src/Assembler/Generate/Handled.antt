-- ===== src/Assembler/Generate/Handled.antt =====
-- src/front/asm/generate.cpp: what the handlers of `compile` make of written operands.
use viuavm.Common.{ℕ, ◌<◌, ◌≡◌, refl, true, false, List, [], ◌∷◌, Text, arith, codes}
use viuavm.Common.Throw.{ok}
use viuavm.Text.Words.{IsWord}
use viuavm.Bytecode.Encode.{ByteOp, IntOp}
use viuavm.Bytecode.Instruction.{Instruction}
use viuavm.Bytecode.Program.Lines.{
  extract-literal, literal-Starts, IsLiteral, spaced, chunk-spaced, without_chunk-spaced,
}
use viuavm.Assembler.Operands.{get2, get3}
use viuavm.Assembler.Operands.Decimal.{get_int-written, written}
use viuavm.Assembler.Generate.Written.{
  get_byte-written, resolve_register-written, written-IsWord, register-written, get2-spaced,
  get3-spaced,
}
use viuavm.Assembler.Generate.Handlers.{
  attach_of, bstore_of, callee, conversion, frame_sizes, named, named_of, one, or_default,
  strstore_of, three_intop, three_of, two, two_of, with_defaults,
}
use viuavm.Assembler.Generate.Source.{IsInt}

or_default-word : (s default : Text) → IsWord s → or_default s default ≡ s
or_default-word [] default h = absurd (omega (arith, h.0))
or_default-word (c ∷ s) default h = refl

callee-word : (reg name : Text) → IsWord name → callee (reg, name) ≡ (reg, name)
callee-word reg [] h = absurd (omega (arith, h.0))
callee-word reg (c ∷ name) h = refl

module _ (names : List (Text × ℕ)) where
  pub one_lem :
      (method : IntOp → Instruction) (a : IntOp)
      → IsInt a
      → one names method (spaced (written a ∷ [])) ≡ ok (method a)
  one_lem method a h =
      rw (chunk-spaced (written a) [] (written-IsWord a), register-written names a h) refl

  pub two_lem :
      (method : IntOp → IntOp → Instruction) (a b : IntOp)
      → IsInt a × IsInt b
      → two names method (spaced (written a ∷ written b ∷ [])) ≡ ok (method a b)
  two_lem method a b h =
      rw
        (
          get2-spaced (written a) (written b) (written-IsWord a) (written-IsWord b),
          register-written names a h.0,
          register-written names b h.1,
        )
        refl

  pub conversion_lem :
      (method : IntOp → IntOp → Instruction) (a b : IntOp)
      → IsInt a × IsInt b
      → conversion names method (spaced (written a ∷ written b ∷ [])) ≡ ok (method a b)
  conversion_lem method a b h =
      rw
        (
          get2-spaced (written a) (written b) (written-IsWord a) (written-IsWord b),
          or_default-word (written b) (written a) (written-IsWord b),
          register-written names a h.0,
          register-written names b h.1,
        )
        refl

  pub frame_lem :
      (a b : IntOp)
      → IsInt a × IsInt b
      → two_of names Instruction.frame (frame_sizes (get2 (spaced (written a ∷ written b ∷ []))))
        ≡ ok (Instruction.frame a b)
  frame_lem a b h =
      rw
        (
          get2-spaced (written a) (written b) (written-IsWord a) (written-IsWord b),
          or_default-word (written a) (codes "0") (written-IsWord a),
          or_default-word (written b) (codes "16") (written-IsWord b),
          register-written names a h.0,
          register-written names b h.1,
        )
        refl

  pub three_lem :
      (method : IntOp → IntOp → IntOp → Instruction) (a b c : IntOp)
      → IsInt a × IsInt b × IsInt c
      → three_intop names method (spaced (written a ∷ written b ∷ written c ∷ []))
        ≡ ok (method a b c)
  three_lem method a b c h =
      rw
        (
          get3-spaced (written a) (written b) (written c) true (written-IsWord a) (written-IsWord b)
              (written-IsWord c),
          resolve_register-written names a,
          resolve_register-written names b,
          resolve_register-written names c,
          get_int-written a h.0,
          get_int-written b h.1,
          get_int-written c h.2,
        )
        refl

  pub defaults_lem :
      (method : IntOp → IntOp → IntOp → Instruction) (dst pos : Text) (a b c : IntOp)
      → IsInt a × IsInt b × IsInt c
      → three_of names method
          (with_defaults dst pos (get3 (spaced (written a ∷ written b ∷ written c ∷ [])) false))
        ≡ ok (method a b c)
  defaults_lem method dst pos a b c h =
      rw
        (
          get3-spaced (written a) (written b) (written c) false (written-IsWord a)
              (written-IsWord b) (written-IsWord c),
          or_default-word (written b) dst (written-IsWord b),
          or_default-word (written c) pos (written-IsWord c),
          register-written names a h.0,
          register-written names b h.1,
          register-written names c h.2,
        )
        refl

  pub named_lem :
      (method : IntOp → Text → Instruction) (a : IntOp) (name : Text)
      → IsInt a × IsWord name
      → named names method (spaced (written a ∷ name ∷ [])) ≡ ok (method a name)
  named_lem method a name h =
      rw (get2-spaced (written a) name (written-IsWord a) h.1, register-written names a h.0) refl

  pub call_lem :
      (a : IntOp) (name : Text)
      → IsInt a × IsWord name
      → named_of names Instruction.call (callee (get2 (spaced (written a ∷ name ∷ []))))
        ≡ ok (Instruction.call a name)
  call_lem a name h =
      rw
        (
          get2-spaced (written a) name (written-IsWord a) h.1,
          callee-word (written a) name h.1,
          register-written names a h.0,
        )
        refl

  pub attach_lem :
      (a : IntOp) (f m : Text)
      → IsInt a × IsWord f × IsWord m
      → attach_of names (get3 (spaced (written a ∷ f ∷ m ∷ [])) true)
        ≡ ok (Instruction.vmattach a f m)
  attach_lem a f m h =
      rw (get3-spaced (written a) f m true (written-IsWord a) h.1 h.2, register-written names a h.0)
        refl

  pub strstore_lem :
      (a : IntOp) (s : Text)
      → IsInt a × IsLiteral s
      → strstore_of names (spaced (written a ∷ s ∷ [])) ≡ ok (Instruction.strstore a s)
  strstore_lem a s h =
      rw
        (
          chunk-spaced (written a) (s ∷ []) (written-IsWord a),
          without_chunk-spaced (written a) (s ∷ []) (written-IsWord a) (literal-Starts s [] h.1),
          extract-literal s [] h.1,
          register-written names a h.0,
        )
        refl

  pub bstore_lem :
      (a : IntOp) (b : ByteOp)
      → IsInt a × (b.1 < 256)
      → bstore_of names (get2 (spaced (written a ∷ written b ∷ []))) ≡ ok (Instruction.bstore a b)
  bstore_lem a b h =
      rw
        (
          get2-spaced (written a) (written b) (written-IsWord a) (written-IsWord b),
          register-written names a h.0,
          resolve_register-written names b,
          get_byte-written b h.1,
        )
        refl
