-- ===== src/Assembler/Generate/Whole.antt =====
-- src/front/asm/generate.cpp: `compile` of whole sources, against the insertion of the instructions.
use viuavm.Common.{
  ◌=ᵗ◌, ℕ, ◌+◌, ◌≡◌, ◌∙◌, ap, refl, true, false, List, [], ◌∷◌, ◌++◌, Text, Option, none, some,
  arith, All, append-nil, append_assoc, ◌==◌,
}
use viuavm.Common.Throw.{Result, ok, ◌>>=◌}
use viuavm.Text.{startswith, join}
use viuavm.Bytecode.Encode.{Float}
use viuavm.Bytecode.Instruction.{Instruction}
use viuavm.Bytecode.Instruction.Layout.{opcode}
use viuavm.Bytecode.Program.{Program, insert, insert_all}
use viuavm.Bytecode.Program.Lines.{spaced, mnemonic, mnemonic-is_mnemonic, is_mnemonic}
use viuavm.Bytecode.Program.Counted.{arguments}
use viuavm.Assembler.Operands.{NumberError}
use viuavm.Assembler.Extract.{each_line}
use viuavm.Assembler.Generate.{◌=ᵗ◌, is_any_directive, dropped_directives, definitions}
use viuavm.Assembler.Generate.Filter.{filter, filter_step}
use viuavm.Assembler.Generate.Lines.{within_array, compile_loop, compile}
use viuavm.Assembler.Generate.Source.{operands, IsAssembled, source_line}
use viuavm.Assembler.Generate.Compiled.{compile_line-source_line}
use viuavm.Assembler.Operands.Decimal.{written}

abbrev pub source_lines : List Instruction → List Text
source_lines [] = []
source_lines (i ∷ is) = source_line i ∷ source_lines is

no_dot : (c : ℕ) (w : Text) → is_mnemonic (c ∷ w) ≡ true → (c == 46) ≡ false
no_dot c w h = ground arith

-- A line that begins with a mnemonic is no directive.
no_directives :
    (w : Text) (ws : List Text)
    → is_mnemonic w ≡ true
    → (is_any_directive dropped_directives (spaced (w ∷ ws)) ≡ false)
      × (is_any_directive definitions (spaced (w ∷ ws)) ≡ false)
unfolding join startswith ◌=ᵗ◌
no_directives [] ws h = cc
no_directives (c ∷ w) [] h = rw (no_dot c w h) (refl, refl)
no_directives (c ∷ w) (v ∷ ws) h = rw (no_dot c w h) (refl, refl)

filter-source :
    (is : List Instruction) (before : List Text)
    → each_line filter_step (record { is_skipping = false; filtered = before }) (source_lines is)
      ≡ ok (record { is_skipping = false; filtered = before ++ source_lines is })
unfolding each_line filter_step
filter-source [] before = rw (append-nil before) refl
filter-source (i ∷ is) before =
    let none_here =
      no_directives (mnemonic (opcode i)) (arguments written operands i)
        (mnemonic-is_mnemonic (opcode i)) in
    rw (none_here.0, none_here.1)
      (filter-source is (before ++ source_line i ∷ [])
        ∙ ap (λ ls. ok (record { is_skipping = false; filtered = ls }))
            (append_assoc before (source_line i ∷ []) (source_lines is)))

filter-source_lines : (is : List Instruction) → filter (source_lines is) ≡ ok (source_lines is)
unfolding filter
filter-source_lines is = rw (filter-source is []) refl

-- What the loop does with the instructions: `insert_all`, where an error is a write past the end.
module _ (stod : Text → Result NumberError Float) (names marks : List (Text × ℕ)) where
  compile_loop-source_lines :
      (n : ℕ) (p : Program) (is : List Instruction)
      → All IsAssembled is
      → compile_loop stod names marks n p (source_lines is) ≡ within_array (insert_all p is)
  unfolding compile_loop insert_all
  compile_loop-source_lines n p [] h = refl
  compile_loop-source_lines n p (i ∷ is) h =
      rw (compile_line-source_line stod names marks n i h.0)
        (inserted (insert p i) refl (λ p'. compile_loop-source_lines (n + 1) p' is h.1))
    where
      inserted :
          (r : Option Program)
          → insert p i ≡ r
          → ((p' : Program)
              → compile_loop stod names marks (n + 1) p' (source_lines is)
                ≡ within_array (insert_all p' is))
          → (within_array (insert p i) >>= λ p'.
              compile_loop stod names marks (n + 1) p' (source_lines is))
            ≡ within_array (insert_all p (i ∷ is))
      inserted none e later = unfold insert_all in rw e refl
      inserted (some p') e later = unfold insert_all in rw e (later p')

-- The lines that instructions are written as, with registers and targets of jumps in decimal, are
-- compiled to exactly those instructions: `compile` does to the program what the insertion of the
-- instructions does, and ends with an error only where that would write past the end of the array. The
-- registers have 32 bits, the jumps are to indices, names are words, quoted texts have no backslashes, and
-- there is no `fstore`. Markers and named registers may be declared, but are not used.
pub compile-source_lines :
    (stod : Text → Result NumberError Float) (names marks : List (Text × ℕ)) (p : Program)
    (is : List Instruction)
    → All IsAssembled is
    → compile stod p (source_lines is) marks names ≡ within_array (insert_all p is)
unfolding compile
compile-source_lines stod names marks p is h =
    rw (filter-source_lines is) (compile_loop-source_lines stod names marks 0 p is h)
