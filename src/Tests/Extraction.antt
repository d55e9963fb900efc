-- ===== src/Tests/Extraction.antt =====
-- Runs of the extraction of code and of the reading of operands, and their theorems at concrete inputs.
use viuavm.Common.{replicate, false, refl, ◌≡◌, true, List, [], ◌∷◌, arith, Text, codes, ◌=ᵗ◌, All}
use viuavm.Common.Throw.{ok, err}
use viuavm.Text.{startswith, chunk, chunk_from, lstrip, sub, end_of}
use viuavm.Bytecode.Program.Count.{without_chunk}
use viuavm.Assembler.Operands.{stoi, skip_blanks, decimal_from, get_int, get3, out_of_range}
use viuavm.Assembler.Operands.Decimal.{written, get_int-written}
use viuavm.Assembler.Extract.{
  get_marks, marks_step, each_line, assign, get_names, names_step, get_function_names, opened_names,
  naming_step, get_invokables, invoking_step, function, nested_opening,
}
use viuavm.Assembler.Extract.Invokables.{
  Part, IsPart, lines_of, names_of, names_by, bodies_of, names_by-get_invokables,
}
use viuavm.Bytecode.Instruction.{JumpType, Instruction}
use viuavm.Assembler.Generate.Source.{IsAssembled}
use viuavm.Assembler.Generate.Lines.{within_array, compile}
use viuavm.Bytecode.Program.Insert.{fresh}
use viuavm.Assembler.Generate.Whole.{compile-source_lines, source_lines}
use viuavm.Bytecode.Program.{insert_all}

get_int-written_example : get_int (written (true, 4294967291)) ≡ ok (true, 4294967291)
get_int-written_example = get_int-written (true, 4294967291) (omega arith)

too_great : stoi (codes " 2147483648") ≡ err out_of_range
unfolding stoi skip_blanks decimal_from
too_great = refl

third_is_first : get3 (codes "1 2") true ≡ (codes "1", codes "2", codes "1")
unfolding get3 without_chunk chunk chunk_from lstrip
third_is_first = refl

abbrev two_functions : List Part
two_functions =
    Part.line (codes ".signature: print/1")
    ∷ Part.definition (codes "main") (codes "izero 0" ∷ codes "end" ∷ [])
    ∷ Part.definition (codes "f") (codes "end" ∷ [])
    ∷ []

two_functions-IsPart : All (IsPart function) two_functions
unfolding startswith ◌=ᵗ◌
two_functions-IsPart = (
  refl,
  (
    ((omega arith, (refl, (refl, (refl, (refl, tt))))), ((refl, refl), ((refl, refl), tt))),
    (((omega arith, (refl, tt)), ((refl, refl), tt)), tt),
  ),
)

names_by-get_invokables_example :
    (names_by function (lines_of function two_functions) ≡ ok (names_of two_functions))
    × (get_invokables function (lines_of function two_functions) ≡ ok (bodies_of [] two_functions))
names_by-get_invokables_example =
    names_by-get_invokables function two_functions two_functions-IsPart

-- Without a space behind the directive one routine finds a name and the other one none.
abbrev no_space : List Text
no_space = codes ".function:f" ∷ codes "end" ∷ codes ".end" ∷ []

no_space_names : get_function_names no_space ≡ ok ([] ∷ [])
unfolding get_function_names opened_names each_line naming_step startswith ◌=ᵗ◌ without_chunk chunk
    chunk_from lstrip
no_space_names = refl

no_space_bodies : get_invokables function no_space ≡ ok ((codes "f", codes "end" ∷ []) ∷ [])
unfolding get_invokables each_line invoking_step startswith ◌=ᵗ◌ chunk chunk_from lstrip sub end_of
    assign
no_space_bodies = refl

nested :
    get_invokables function (codes ".function: f" ∷ codes ".function: g" ∷ codes ".end" ∷ [])
    ≡ err nested_opening
unfolding get_invokables each_line invoking_step startswith ◌=ᵗ◌
nested = refl

marks_example :
    get_marks (codes "nop" ∷ codes ".mark: loop" ∷ codes "jump :loop" ∷ [])
    ≡ ok ((codes "loop", 1) ∷ [])
unfolding get_marks marks_step each_line startswith ◌=ᵗ◌ chunk chunk_from lstrip sub end_of assign
marks_example = refl

names_example : get_names (codes ".name: 1 base" ∷ codes "nop" ∷ []) ≡ ok ((codes "base", 1) ∷ [])
unfolding get_names names_step each_line startswith ◌=ᵗ◌ chunk chunk_from lstrip sub end_of assign
    stoi skip_blanks decimal_from
names_example = refl

-- A loop that counts a register down to a block.
abbrev countdown : List Instruction
countdown =
    Instruction.istore (false, 1) (false, 3)
    ∷ Instruction.idec (false, 1)
    ∷ Instruction.igt (false, 2) (false, 1) (true, 4294967295)
    ∷ Instruction.branch (false, 2) 1 JumpType.relative 4 JumpType.absolute
    ∷ Instruction.vmenter (codes "done")
    ∷ Instruction.halt
    ∷ []

countdown-IsAssembled : All IsAssembled countdown
countdown-IsAssembled = (
  (omega arith, omega arith),
  (
    omega arith,
    (
      (omega arith, omega arith, omega arith),
      (
        (omega arith, omega arith, omega arith),
        ((omega arith, (refl, (refl, (refl, (refl, tt))))), (tt, tt)),
      ),
    ),
  ),
)

compile-source_lines_example :
    compile stoi (fresh (replicate 60 0)) (source_lines countdown) [] ((codes "counter", 1) ∷ [])
    ≡ within_array (insert_all (fresh (replicate 60 0)) countdown)
compile-source_lines_example =
    compile-source_lines stoi ((codes "counter", 1) ∷ []) [] (fresh (replicate 60 0)) countdown
      countdown-IsAssembled
