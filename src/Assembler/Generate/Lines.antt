-- ===== src/Assembler/Generate/Lines.antt =====
-- src/front/asm/generate.cpp: `compile`, which looks at the mnemonic of each line, and `assemble`.
use viuavm.Common.{
  ℕ, ◌+◌, Bool, true, false, Option, none, some, List, [], ◌∷◌, if◌then◌else◌, Text, codes, ◌=ᵗ◌,
}
use viuavm.Common.Throw.{Result, ok, err, ◌>>=◌}
use viuavm.Text.{startswith, startswithchunk, chunk, extract}
use viuavm.Bytecode.Encode.{Float}
use viuavm.Bytecode.Instruction.{Instruction}
use viuavm.Bytecode.Program.Count.{without_chunk, without_literal}
use viuavm.Bytecode.Program.{Program, insert}
use viuavm.Assembler.Operands.{NumberError, get2, get3}
use viuavm.Assembler.Extract.{Fault, get_marks, get_names}
use viuavm.Assembler.Generate.{GenerateError, unimplemented_instruction}
use viuavm.Assembler.Generate.Handlers.{
  Compiled, attach_of, branch_of, bstore_of, callee, conversion, frame_sizes, fstore_of, jump_of,
  named, named_of, one, strstore_of, three_intop, three_of, two, two_of, with_defaults,
}
use viuavm.Assembler.Generate.Filter.{filter}

-- The first case whose test holds.
abbrev pub cases {ℓ} : {A : Type ℓ} → List (Bool × A) → A → A
cases [] otherwise = otherwise
cases ((test, a) ∷ rest) otherwise = if test then a else cases rest otherwise

module _ (stod : Text → Result NumberError Float) (names marks : List (Text × ℕ)) (i : ℕ) where
  -- `line`, and what is behind its mnemonic, in the order of the tests of `compile`.
  abbrev pub number_lines : Text → Text → List (Bool × Compiled)
  number_lines line operands =
      let starts : Text → Bool = startswith line in
      let chunk_is : Text → Bool = startswithchunk line in
      (line =ᵗ codes "nop", ok Instruction.nop)
      ∷ (starts (codes "izero"), one names Instruction.izero operands)
      ∷ (starts (codes "istore"), two names Instruction.istore operands)
      ∷ (starts (codes "iadd"), three_intop names Instruction.iadd operands)
      ∷ (starts (codes "isub"), three_intop names Instruction.isub operands)
      ∷ (starts (codes "imul"), three_intop names Instruction.imul operands)
      ∷ (starts (codes "idiv"), three_intop names Instruction.idiv operands)
      ∷ (chunk_is (codes "ilt"), three_intop names Instruction.ilt operands)
      ∷ (chunk_is (codes "ilte"), three_intop names Instruction.ilte operands)
      ∷ (starts (codes "igte"), three_intop names Instruction.igte operands)
      ∷ (starts (codes "igt"), three_intop names Instruction.igt operands)
      ∷ (starts (codes "ieq"), three_intop names Instruction.ieq operands)
      ∷ (starts (codes "iinc"), one names Instruction.iinc operands)
      ∷ (starts (codes "idec"), one names Instruction.idec operands)
      ∷ (starts (codes "fstore"), fstore_of stod names marks i (get2 operands))
      ∷ (starts (codes "fadd"), three_intop names Instruction.fadd operands)
      ∷ (starts (codes "fsub"), three_intop names Instruction.fsub operands)
      ∷ (starts (codes "fmul"), three_intop names Instruction.fmul operands)
      ∷ (starts (codes "fdiv"), three_intop names Instruction.fdiv operands)
      ∷ (chunk_is (codes "flt"), three_intop names Instruction.flt operands)
      ∷ (chunk_is (codes "flte"), three_intop names Instruction.flte operands)
      ∷ (chunk_is (codes "fgt"), three_intop names Instruction.fgt operands)
      ∷ (chunk_is (codes "fgte"), three_intop names Instruction.fgte operands)
      ∷ (starts (codes "feq"), three_intop names Instruction.feq operands)
      ∷ (starts (codes "bstore"), bstore_of names (get2 operands))
      ∷ (starts (codes "itof"), conversion names Instruction.itof operands)
      ∷ (starts (codes "ftoi"), conversion names Instruction.ftoi operands)
      ∷ (starts (codes "stoi"), conversion names Instruction.stoi operands)
      ∷ (starts (codes "stof"), conversion names Instruction.stof operands)
      ∷ []

  abbrev pub register_lines : Text → Text → List (Bool × Compiled)
  register_lines line operands =
      let starts : Text → Bool = startswith line in
      (starts (codes "strstore"), strstore_of names operands)
      ∷ (starts (codes "vec"), one names Instruction.vec operands)
      ∷ (
        starts (codes "vinsert"),
        three_of names Instruction.vinsert (with_defaults [] (codes "0") (get3 operands false)),
      )
      ∷ (starts (codes "vpush"), two names Instruction.vpush operands)
      ∷ (
        starts (codes "vpop"),
        three_of names Instruction.vpop
            (with_defaults (codes "0") (codes "-1") (get3 operands false)),
      )
      ∷ (
        starts (codes "vat"),
        three_of names Instruction.vat (with_defaults [] (codes "-1") (get3 operands false)),
      )
      ∷ (starts (codes "vlen"), two names Instruction.vlen operands)
      ∷ (starts (codes "not"), one names Instruction.lognot operands)
      ∷ (starts (codes "and"), three_intop names Instruction.logand operands)
      ∷ (starts (codes "or"), three_intop names Instruction.logor operands)
      ∷ (starts (codes "move"), two names Instruction.move operands)
      ∷ (starts (codes "copy"), two names Instruction.copy operands)
      ∷ (starts (codes "ref"), two names Instruction.ref operands)
      ∷ (starts (codes "swap"), two names Instruction.swap operands)
      ∷ (starts (codes "free"), one names Instruction.free operands)
      ∷ (starts (codes "empty"), one names Instruction.empty operands)
      ∷ (starts (codes "isnull"), two names Instruction.isnull operands)
      ∷ (starts (codes "ress"), ok (Instruction.ress operands))
      ∷ (starts (codes "tmpri"), one names Instruction.tmpri operands)
      ∷ (starts (codes "tmpro"), one names Instruction.tmpro operands)
      ∷ (starts (codes "print"), one names Instruction.print operands)
      ∷ (starts (codes "echo"), one names Instruction.echo operands)
      ∷ (starts (codes "clbind"), one names Instruction.clbind operands)
      ∷ []

  abbrev pub control_lines : Text → Text → List (Bool × Compiled)
  control_lines line operands =
      let starts : Text → Bool = startswith line in
      let chunk_is : Text → Bool = startswithchunk line in
      (starts (codes "closure"), named names Instruction.closure operands)
      ∷ (starts (codes "function"), named names Instruction.function operands)
      ∷ (starts (codes "fcall"), two names Instruction.fcall operands)
      ∷ (starts (codes "frame"), two_of names Instruction.frame (frame_sizes (get2 operands)))
      ∷ (starts (codes "param"), two names Instruction.param operands)
      ∷ (starts (codes "paref"), two names Instruction.paref operands)
      ∷ (chunk_is (codes "arg"), two names Instruction.arg operands)
      ∷ (starts (codes "argc"), one names Instruction.argc operands)
      ∷ (starts (codes "call"), named_of names Instruction.call (callee (get2 operands)))
      ∷ (starts (codes "branch"), branch_of stod names marks i (get3 operands false))
      ∷ (starts (codes "jump"), jump_of marks i operands)
      ∷ (starts (codes "try"), ok Instruction.vmtry)
      ∷ (
        starts (codes "catch"),
        ok (Instruction.vmcatch (extract operands) (chunk (without_literal operands) true)),
      )
      ∷ (starts (codes "pull"), one names Instruction.pull operands)
      ∷ (starts (codes "enter"), ok (Instruction.vmenter (chunk operands true)))
      ∷ (starts (codes "throw"), one names Instruction.vmthrow operands)
      ∷ (starts (codes "leave"), ok Instruction.leave)
      ∷ (starts (codes "import"), ok (Instruction.import (extract operands)))
      ∷ (starts (codes "link"), ok (Instruction.link (chunk operands true)))
      ∷ (starts (codes "class"), named names Instruction.vmclass operands)
      ∷ (starts (codes "derive"), named names Instruction.vmderive operands)
      ∷ (starts (codes "attach"), attach_of names (get3 operands true))
      ∷ (starts (codes "register"), one names Instruction.vmregister operands)
      ∷ (starts (codes "new"), named names Instruction.vmnew operands)
      ∷ (starts (codes "msg"), named names Instruction.vmmsg operands)
      ∷ (starts (codes "end"), ok Instruction.end)
      ∷ (starts (codes "halt"), ok Instruction.halt)
      ∷ []

  abbrev pub compile_operands : Text → Text → Compiled
  compile_operands line operands = cases (number_lines line operands) (
      cases (register_lines line operands)
        (cases (control_lines line operands) (err unimplemented_instruction)))

  -- `operands` is `lstrip(sub(line, instr.size()))`.
  unfoldable pub compile_line : Text → Compiled
  compile_line line = compile_operands line (without_chunk line)

-- What ends `assemble`: the extraction of names and marks or `filter`, a line, or a write past the array.
pub data AssembleError : Type 0 where
  of_extraction : Fault → AssembleError
  of_line : GenerateError → AssembleError
  writes_past_the_end : AssembleError

abbrev pub extracted {ℓ} : {A : Type ℓ} → Result Fault A → Result AssembleError A
extracted (ok a) = ok a
extracted (err e) = err (of_extraction e)

abbrev pub compiled {ℓ} : {A : Type ℓ} → Result GenerateError A → Result AssembleError A
compiled (ok a) = ok a
compiled (err e) = err (of_line e)

abbrev pub within_array : Option Program → Result AssembleError Program
within_array (some program) = ok program
within_array none = err writes_past_the_end

module _ (stod : Text → Result NumberError Float) where
  -- The loop of `compile` from instruction `i` on.
  unfoldable pub compile_loop :
      List (Text × ℕ) → List (Text × ℕ) → ℕ → Program → List Text → Result AssembleError Program
  compile_loop names marks i program [] = ok program
  compile_loop names marks i program (line ∷ ilines) =
      compiled (compile_line stod names marks i line) >>= λ instruction.
      within_array (insert program instruction) >>= λ program'.
      compile_loop names marks (i + 1) program' ilines

  unfoldable pub compile :
      Program → List Text → List (Text × ℕ) → List (Text × ℕ) → Result AssembleError Program
  compile program lines marks names =
      extracted (filter lines) >>= λ ilines. compile_loop names marks 0 program ilines

  unfoldable pub assemble : Program → List Text → Result AssembleError Program
  assemble program lines = extracted (get_marks lines) >>= λ marks.
      extracted (get_names lines) >>= λ names. compile program lines marks names
