-- ===== src/Assembler/Generate/Compiled.antt =====
-- src/front/asm/generate.cpp: `compile` on the lines that instructions are written as.
use viuavm.Common.{◌=ᵗ◌, ℕ, ◌≡◌, ◌∙◌, refl, true, false, List, [], ◌∷◌, Text, codes}
use viuavm.Common.Throw.{Result, ok}
use viuavm.Text.{extract, startswith, startswithchunk, chunk, chunk_from, lstrip, join}
use viuavm.Text.Words.{IsWord, Starts}
use viuavm.Bytecode.Opcode.{Opcode}
use viuavm.Bytecode.Tables.{op_name}
use viuavm.Bytecode.Encode.{IntOp, Float}
use viuavm.Bytecode.Instruction.{Instruction}
use viuavm.Bytecode.Instruction.Layout.{opcode}
use viuavm.Bytecode.Program.Lines.{
  extract-literal, literal-Starts, spaced, mnemonic, chunk-spaced, without_chunk-spaced,
  spaced-Starts, mnemonic-IsWord, mnemonic-is_mnemonic,
}
use viuavm.Assembler.Operands.{get2, NumberError, get3}
use viuavm.Assembler.Operands.Decimal.{written}
use viuavm.Assembler.Generate.Written.{behind_literal, written-IsWord}
use viuavm.Assembler.Generate.Handlers.{
  Compiled, attach_of, branch_of, bstore_of, callee, conversion, frame_sizes, jump_of, named,
  named_of, one, strstore_of, three_intop, three_of, two, two_of, with_defaults,
}
use viuavm.Assembler.Generate.Lines.{compile_line, compile_operands}
use viuavm.Assembler.Generate.Source.{IsInt, target_text, source_line, IsAssembled}
use viuavm.Assembler.Generate.Handled.{
  bstore_lem, strstore_lem, attach_lem, call_lem, named_lem, defaults_lem, three_lem, frame_lem,
  conversion_lem, two_lem, one_lem,
}
use viuavm.Bytecode.Program.Count.{without_literal}
use viuavm.Assembler.Generate.Jumps.{branch_lem, jump_lem, target-IsWord}

module _ (stod : Text → Result NumberError Float) (names marks : List (Text × ℕ)) (n : ℕ) where
  abbrev compiles : List Text → Text → Compiled
  compiles ws s = compile_operands stod names marks n (spaced ws) s

  -- A line whose mnemonic selects a handler: what the handler makes of the operands.
  line_lem :
      (op : Opcode) (ws : List Text) (i : Instruction) (handler : Text → Compiled)
      → Starts (spaced ws)
      → ((s : Text) → compiles (mnemonic op ∷ ws) s ≡ handler s)
      → handler (spaced ws) ≡ ok i
      → compile_line stod names marks n (spaced (mnemonic op ∷ ws)) ≡ ok i
  unfolding compile_line
  line_lem op ws i handler h select e =
      rw (without_chunk-spaced (mnemonic op) ws (mnemonic-IsWord _ (mnemonic-is_mnemonic op)) h)
        (select (spaced ws) ∙ e)

  register_line :
      (op : Opcode) (ws : List Text) (a : IntOp) (i : Instruction) (handler : Text → Compiled)
      → ((s : Text) → compiles (mnemonic op ∷ written a ∷ ws) s ≡ handler s)
      → handler (spaced (written a ∷ ws)) ≡ ok i
      → compile_line stod names marks n (spaced (mnemonic op ∷ written a ∷ ws)) ≡ ok i
  register_line op ws a i handler =
      line_lem op (written a ∷ ws) i handler (spaced-Starts (written a) ws (written-IsWord a))

  one_line :
      (op : Opcode) (method : IntOp → Instruction) (a : IntOp)
      → IsInt a
      → ((s : Text) → compiles (mnemonic op ∷ written a ∷ []) s ≡ one names method s)
      → compile_line stod names marks n (spaced (mnemonic op ∷ written a ∷ [])) ≡ ok (method a)
  one_line op method a h select =
      register_line op [] a (method a) (one names method) select (one_lem names method a h)

  two_line :
      (op : Opcode) (method : IntOp → IntOp → Instruction) (a b : IntOp)
      → IsInt a × IsInt b
      → ((s : Text) → compiles (mnemonic op ∷ written a ∷ written b ∷ []) s ≡ two names method s)
      → compile_line stod names marks n (spaced (mnemonic op ∷ written a ∷ written b ∷ []))
        ≡ ok (method a b)
  two_line op method a b h select =
      register_line op (written b ∷ []) a (method a b) (two names method) select
        (two_lem names method a b h)

  conversion_line :
      (op : Opcode) (method : IntOp → IntOp → Instruction) (a b : IntOp)
      → IsInt a × IsInt b
      → ((s : Text)
          → compiles (mnemonic op ∷ written a ∷ written b ∷ []) s ≡ conversion names method s)
      → compile_line stod names marks n (spaced (mnemonic op ∷ written a ∷ written b ∷ []))
        ≡ ok (method a b)
  conversion_line op method a b h select =
      register_line op (written b ∷ []) a (method a b) (conversion names method) select
        (conversion_lem names method a b h)

  three_line :
      (op : Opcode) (method : IntOp → IntOp → IntOp → Instruction) (a b c : IntOp)
      → IsInt a × IsInt b × IsInt c
      → ((s : Text)
          → compiles (mnemonic op ∷ written a ∷ written b ∷ written c ∷ []) s
            ≡ three_intop names method s)
      → compile_line stod names marks n
          (spaced (mnemonic op ∷ written a ∷ written b ∷ written c ∷ []))
        ≡ ok (method a b c)
  three_line op method a b c h select =
      register_line op (written b ∷ written c ∷ []) a (method a b c) (three_intop names method)
        select (three_lem names method a b c h)

  named_line :
      (op : Opcode) (method : IntOp → Text → Instruction) (a : IntOp) (name : Text)
      → IsInt a × IsWord name
      → ((s : Text) → compiles (mnemonic op ∷ written a ∷ name ∷ []) s ≡ named names method s)
      → compile_line stod names marks n (spaced (mnemonic op ∷ written a ∷ name ∷ []))
        ≡ ok (method a name)
  named_line op method a name h select =
      register_line op (name ∷ []) a (method a name) (named names method) select
        (named_lem names method a name h)

  -- Each mnemonic selects the handler of its instruction.
  pub compile_line-source_line :
      (i : Instruction) → IsAssembled i → compile_line stod names marks n (source_line i) ≡ ok i
  unfolding opcode mnemonic op_name startswith startswithchunk chunk chunk_from lstrip join ◌=ᵗ◌
  compile_line-source_line (Instruction.izero a) h =
      one_line Opcode.izero Instruction.izero a h (λ s. refl)
  compile_line-source_line (Instruction.iinc a) h =
      one_line Opcode.iinc Instruction.iinc a h (λ s. refl)
  compile_line-source_line (Instruction.idec a) h =
      one_line Opcode.idec Instruction.idec a h (λ s. refl)
  compile_line-source_line (Instruction.vec a) h =
      one_line Opcode.vec Instruction.vec a h (λ s. refl)
  compile_line-source_line (Instruction.lognot a) h =
      one_line Opcode.not Instruction.lognot a h (λ s. refl)
  compile_line-source_line (Instruction.free a) h =
      one_line Opcode.free Instruction.free a h (λ s. refl)
  compile_line-source_line (Instruction.empty a) h =
      one_line Opcode.empty Instruction.empty a h (λ s. refl)
  compile_line-source_line (Instruction.tmpri a) h =
      one_line Opcode.tmpri Instruction.tmpri a h (λ s. refl)
  compile_line-source_line (Instruction.tmpro a) h =
      one_line Opcode.tmpro Instruction.tmpro a h (λ s. refl)
  compile_line-source_line (Instruction.print a) h =
      one_line Opcode.print Instruction.print a h (λ s. refl)
  compile_line-source_line (Instruction.echo a) h =
      one_line Opcode.echo Instruction.echo a h (λ s. refl)
  compile_line-source_line (Instruction.clbind a) h =
      one_line Opcode.clbind Instruction.clbind a h (λ s. refl)
  compile_line-source_line (Instruction.argc a) h =
      one_line Opcode.argc Instruction.argc a h (λ s. refl)
  compile_line-source_line (Instruction.pull a) h =
      one_line Opcode.pull Instruction.pull a h (λ s. refl)
  compile_line-source_line (Instruction.vmthrow a) h =
      one_line Opcode.throw Instruction.vmthrow a h (λ s. refl)
  compile_line-source_line (Instruction.vmregister a) h =
      one_line Opcode.register Instruction.vmregister a h (λ s. refl)
  compile_line-source_line (Instruction.istore a b) h =
      two_line Opcode.istore Instruction.istore a b h (λ s. refl)
  compile_line-source_line (Instruction.vpush a b) h =
      two_line Opcode.vpush Instruction.vpush a b h (λ s. refl)
  compile_line-source_line (Instruction.vlen a b) h =
      two_line Opcode.vlen Instruction.vlen a b h (λ s. refl)
  compile_line-source_line (Instruction.move a b) h =
      two_line Opcode.move Instruction.move a b h (λ s. refl)
  compile_line-source_line (Instruction.copy a b) h =
      two_line Opcode.copy Instruction.copy a b h (λ s. refl)
  compile_line-source_line (Instruction.ref a b) h =
      two_line Opcode.ref Instruction.ref a b h (λ s. refl)
  compile_line-source_line (Instruction.swap a b) h =
      two_line Opcode.swap Instruction.swap a b h (λ s. refl)
  compile_line-source_line (Instruction.isnull a b) h =
      two_line Opcode.isnull Instruction.isnull a b h (λ s. refl)
  compile_line-source_line (Instruction.fcall a b) h =
      two_line Opcode.fcall Instruction.fcall a b h (λ s. refl)
  compile_line-source_line (Instruction.param a b) h =
      two_line Opcode.param Instruction.param a b h (λ s. refl)
  compile_line-source_line (Instruction.paref a b) h =
      two_line Opcode.paref Instruction.paref a b h (λ s. refl)
  compile_line-source_line (Instruction.arg a b) h =
      two_line Opcode.arg Instruction.arg a b h (λ s. refl)
  compile_line-source_line (Instruction.itof a b) h =
      conversion_line Opcode.itof Instruction.itof a b h (λ s. refl)
  compile_line-source_line (Instruction.ftoi a b) h =
      conversion_line Opcode.ftoi Instruction.ftoi a b h (λ s. refl)
  compile_line-source_line (Instruction.stoi a b) h =
      conversion_line Opcode.stoi Instruction.stoi a b h (λ s. refl)
  compile_line-source_line (Instruction.stof a b) h =
      conversion_line Opcode.stof Instruction.stof a b h (λ s. refl)
  compile_line-source_line (Instruction.frame a b) h =
      register_line Opcode.frame (written b ∷ []) a _
        (λ s. two_of names Instruction.frame (frame_sizes (get2 s))) (λ s. refl)
        (frame_lem names a b h)
  compile_line-source_line (Instruction.iadd a b c) h =
      three_line Opcode.iadd Instruction.iadd a b c h (λ s. refl)
  compile_line-source_line (Instruction.isub a b c) h =
      three_line Opcode.isub Instruction.isub a b c h (λ s. refl)
  compile_line-source_line (Instruction.imul a b c) h =
      three_line Opcode.imul Instruction.imul a b c h (λ s. refl)
  compile_line-source_line (Instruction.idiv a b c) h =
      three_line Opcode.idiv Instruction.idiv a b c h (λ s. refl)
  compile_line-source_line (Instruction.ilt a b c) h =
      three_line Opcode.ilt Instruction.ilt a b c h (λ s. refl)
  compile_line-source_line (Instruction.ilte a b c) h =
      three_line Opcode.ilte Instruction.ilte a b c h (λ s. refl)
  compile_line-source_line (Instruction.igt a b c) h =
      three_line Opcode.igt Instruction.igt a b c h (λ s. refl)
  compile_line-source_line (Instruction.igte a b c) h =
      three_line Opcode.igte Instruction.igte a b c h (λ s. refl)
  compile_line-source_line (Instruction.ieq a b c) h =
      three_line Opcode.ieq Instruction.ieq a b c h (λ s. refl)
  compile_line-source_line (Instruction.fadd a b c) h =
      three_line Opcode.fadd Instruction.fadd a b c h (λ s. refl)
  compile_line-source_line (Instruction.fsub a b c) h =
      three_line Opcode.fsub Instruction.fsub a b c h (λ s. refl)
  compile_line-source_line (Instruction.fmul a b c) h =
      three_line Opcode.fmul Instruction.fmul a b c h (λ s. refl)
  compile_line-source_line (Instruction.fdiv a b c) h =
      three_line Opcode.fdiv Instruction.fdiv a b c h (λ s. refl)
  compile_line-source_line (Instruction.flt a b c) h =
      three_line Opcode.flt Instruction.flt a b c h (λ s. refl)
  compile_line-source_line (Instruction.flte a b c) h =
      three_line Opcode.flte Instruction.flte a b c h (λ s. refl)
  compile_line-source_line (Instruction.fgt a b c) h =
      three_line Opcode.fgt Instruction.fgt a b c h (λ s. refl)
  compile_line-source_line (Instruction.fgte a b c) h =
      three_line Opcode.fgte Instruction.fgte a b c h (λ s. refl)
  compile_line-source_line (Instruction.feq a b c) h =
      three_line Opcode.feq Instruction.feq a b c h (λ s. refl)
  compile_line-source_line (Instruction.logand a b c) h =
      three_line Opcode.and Instruction.logand a b c h (λ s. refl)
  compile_line-source_line (Instruction.logor a b c) h =
      three_line Opcode.or Instruction.logor a b c h (λ s. refl)
  compile_line-source_line (Instruction.vinsert a b c) h =
      register_line Opcode.vinsert (written b ∷ written c ∷ []) a _
        (λ s. three_of names Instruction.vinsert (with_defaults [] (codes "0") (get3 s false)))
        (λ s. refl) (defaults_lem names Instruction.vinsert [] (codes "0") a b c h)
  compile_line-source_line (Instruction.vpop a b c) h =
      register_line Opcode.vpop (written b ∷ written c ∷ []) a _
        (λ s.
          three_of names Instruction.vpop (with_defaults (codes "0") (codes "-1") (get3 s false)))
        (λ s. refl) (defaults_lem names Instruction.vpop (codes "0") (codes "-1") a b c h)
  compile_line-source_line (Instruction.vat a b c) h =
      register_line Opcode.vat (written b ∷ written c ∷ []) a _
        (λ s. three_of names Instruction.vat (with_defaults [] (codes "-1") (get3 s false)))
        (λ s. refl) (defaults_lem names Instruction.vat [] (codes "-1") a b c h)
  compile_line-source_line (Instruction.closure a name) h =
      named_line Opcode.closure Instruction.closure a name h (λ s. refl)
  compile_line-source_line (Instruction.function a name) h =
      named_line Opcode.function Instruction.function a name h (λ s. refl)
  compile_line-source_line (Instruction.vmclass a name) h =
      named_line Opcode.class Instruction.vmclass a name h (λ s. refl)
  compile_line-source_line (Instruction.vmderive a name) h =
      named_line Opcode.derive Instruction.vmderive a name h (λ s. refl)
  compile_line-source_line (Instruction.vmnew a name) h =
      named_line Opcode.new Instruction.vmnew a name h (λ s. refl)
  compile_line-source_line (Instruction.vmmsg a name) h =
      named_line Opcode.msg Instruction.vmmsg a name h (λ s. refl)
  compile_line-source_line (Instruction.call a name) h =
      register_line Opcode.call (name ∷ []) a _
        (λ s. named_of names Instruction.call (callee (get2 s))) (λ s. refl)
        (call_lem names a name h)
  compile_line-source_line (Instruction.vmattach a f m) h =
      register_line Opcode.attach (f ∷ m ∷ []) a _ (λ s. attach_of names (get3 s true)) (λ s. refl)
        (attach_lem names a f m h)
  compile_line-source_line (Instruction.strstore a s) h =
      register_line Opcode.strstore (s ∷ []) a _ (strstore_of names) (λ s. refl)
        (strstore_lem names a s h)
  compile_line-source_line (Instruction.bstore a b) h =
      register_line Opcode.bstore (written b ∷ []) a _ (λ s. bstore_of names (get2 s)) (λ s. refl)
        (bstore_lem names a b h)
  compile_line-source_line (Instruction.import m) h =
      line_lem Opcode.import (m ∷ []) (Instruction.import m)
        (λ s. ok (Instruction.import (extract s))) (literal-Starts m [] h) (λ s. refl)
        (rw (extract-literal m [] h) refl)
  compile_line-source_line (Instruction.vmcatch t b) h =
      line_lem Opcode.catch (t ∷ b ∷ []) (Instruction.vmcatch t b)
        (λ s. ok (Instruction.vmcatch (extract s) (chunk (without_literal s) true)))
        (literal-Starts t (b ∷ []) h.0) (λ s. refl)
        (rw (extract-literal t (b ∷ []) h.0, behind_literal t b h.0 h.1) refl)
  compile_line-source_line (Instruction.vmenter m) h =
      line_lem Opcode.enter (m ∷ []) (Instruction.vmenter m)
        (λ s. ok (Instruction.vmenter (chunk s true))) (spaced-Starts m [] h) (λ s. refl)
        (rw (chunk-spaced m [] h) refl)
  compile_line-source_line (Instruction.link m) h =
      line_lem Opcode.link (m ∷ []) (Instruction.link m) (λ s. ok (Instruction.link (chunk s true)))
        (spaced-Starts m [] h) (λ s. refl) (rw (chunk-spaced m [] h) refl)
  compile_line-source_line (Instruction.ress m) h =
      line_lem Opcode.ress (m ∷ []) (Instruction.ress m) (λ s. ok (Instruction.ress s))
        (spaced-Starts m [] h) (λ s. refl) refl
  compile_line-source_line (Instruction.jump addr kind) h =
      line_lem Opcode.jump (target_text addr kind ∷ []) (Instruction.jump addr kind)
        (jump_of marks n) (spaced-Starts (target_text addr kind) [] (target-IsWord addr kind))
        (λ s. refl) (jump_lem marks n addr kind h)
  compile_line-source_line (Instruction.branch a addr_truth kind_truth addr_false kind_false) h =
      register_line Opcode.branch
        (target_text addr_truth kind_truth ∷ target_text addr_false kind_false ∷ []) a _
        (λ s. branch_of stod names marks n (get3 s false)) (λ s. refl)
        (branch_lem marks n stod names a addr_truth kind_truth addr_false kind_false h)
  compile_line-source_line (Instruction.fstore a f) h = absurd h
  compile_line-source_line Instruction.nop h =
      line_lem Opcode.nop [] _ (λ s. ok Instruction.nop) (unfold join in tt) (λ s. refl) refl
  compile_line-source_line Instruction.vmtry h =
      line_lem Opcode.try [] _ (λ s. ok Instruction.vmtry) (unfold join in tt) (λ s. refl) refl
  compile_line-source_line Instruction.leave h =
      line_lem Opcode.leave [] _ (λ s. ok Instruction.leave) (unfold join in tt) (λ s. refl) refl
  compile_line-source_line Instruction.end h =
      line_lem Opcode.end [] _ (λ s. ok Instruction.end) (unfold join in tt) (λ s. refl) refl
  compile_line-source_line Instruction.halt h =
      line_lem Opcode.halt [] _ (λ s. ok Instruction.halt) (unfold join in tt) (λ s. refl) refl
