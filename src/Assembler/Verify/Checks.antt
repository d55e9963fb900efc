-- ===== src/Assembler/Verify/Checks.antt =====
-- The checks of src/cg/assembler/verify.cpp that read one line after the other.
use Prim.Native.String.{String}
use viuavm.Common.{
  ◌&&◌, ◌==◌, not, drop, ◌+◌, ◌||◌, Option, ℕ, Bool, List, Text, codes, ◌=ᵗ◌, if◌then◌else◌, [],
  ◌∷◌, none, some, true, false,
}
use viuavm.Common.Maybe.{◌>>=◌}
use viuavm.Bytecode.Program.Count.{without_chunk}
use viuavm.Text.{lstrip, chunk, startswith, startswithchunk}
use viuavm.Assembler.Verify.{SourceLines, source_line}
use viuavm.Bytecode.Tables.{sized_instructions}

-- A fatal report: what is complained of, and at which line of the source.
pub data Complaint : Type 0 where
  at_line : Text → ℕ → Complaint

-- The loop over the lines, which a report ends by `break`; a check says what is wrong with a line.
unfoldable pub scan : (Text → Option Text) → SourceLines → ℕ → List Text → Option (List Complaint)
scan check expanded i [] = some []
scan check expanded i (line ∷ lines) =
    let rest = scan check expanded (i + 1) lines in
    elim (check (lstrip line)) [
      | none ↦ rest
      | some what ↦ source_line expanded i >>= λ n. some (at_line what n ∷ [])
    ]

-- The same loop without the `break`.
unfoldable pub scan_all :
    (Text → Option Text) → SourceLines → ℕ → List Text → Option (List Complaint)
scan_all check expanded i [] = some []
scan_all check expanded i (line ∷ lines) =
    let rest = scan_all check expanded (i + 1) lines in
    elim (check (lstrip line)) [
      | none ↦ rest
      | some what ↦
          source_line expanded i >>= λ n. rest >>= λ complaints. some (at_line what n ∷ complaints)
    ]

-- `find(names.begin(), names.end(), name) != names.end()`
unfoldable pub is_among : Text → List Text → Bool
is_among name [] = false
is_among name (n ∷ names) = n =ᵗ name || is_among name names

-- Neither among the names nor among the signatures: then `some`.
abbrev pub undefined : List Text → List Text → Text → Option Text
undefined names signatures name =
    if is_among name names || is_among name signatures then none else some name

-- `function.size() ? function : return_register`
abbrev pub unless_empty : Text → Text → Text
unless_empty [] other = other
unless_empty (c ∷ s) other = c ∷ s

unfoldable pub undefined_call : List Text → List Text → Text → Option Text
undefined_call names signatures line =
    let operands = lstrip (drop 4 line) in
    let function = chunk (without_chunk operands) true in
    let check_function = unless_empty function (chunk operands true) in
    if startswith line (codes "call") then undefined names signatures check_function else none

unfoldable pub function_calls_are_defined :
    List Text → SourceLines → List Text → List Text → Option (List Complaint)
function_calls_are_defined lines expanded function_names function_signatures =
    scan (undefined_call function_names function_signatures) expanded 0 lines

unfoldable pub undefined_block : List Text → List Text → Text → Option Text
undefined_block names signatures line =
    if startswithchunk line (codes "enter")
    then undefined names signatures (chunk (without_chunk line) true)
    else none

unfoldable pub block_tries :
    List Text → SourceLines → List Text → List Text → Option (List Complaint)
block_tries lines expanded block_names block_signatures =
    scan_all (undefined_block block_names block_signatures) expanded 0 lines

unfoldable pub undefined_callable : List Text → List Text → Text → Option Text
undefined_callable names signatures line =
    let function = chunk (without_chunk (without_chunk line)) true in
    if startswith line (codes "closure") || startswith line (codes "function")
    then undefined names signatures function
    else none

unfoldable pub callable_creations :
    List Text → SourceLines → List Text → List Text → Option (List Complaint)
callable_creations lines expanded function_names function_signatures =
    scan (undefined_callable function_names function_signatures) expanded 0 lines

abbrev pub legal_register_sets : List Text
legal_register_sets = codes "global" ∷ codes "local" ∷ codes "static" ∷ codes "temp" ∷ []

-- What is wrong with a `ress`, inside of `function`.
unfoldable pub illegal_ress : Bool → Text → Text → Option Text
illegal_ress as_lib function line =
    let registerset_name = chunk (without_chunk line) true in
    if not (startswith line (codes "ress"))
    then none
    else if not (is_among registerset_name legal_register_sets)
    then some registerset_name
    else if registerset_name =ᵗ codes "global" && (as_lib && not (function =ᵗ codes "main"))
    then some registerset_name
    else none

-- The loop of `ressInstructions`, with the name of the function that the lines stand in.
unfoldable pub ress_loop : Bool → SourceLines → ℕ → Text → List Text → Option (List Complaint)
ress_loop as_lib expanded i function [] = some []
ress_loop as_lib expanded i function (line ∷ lines) =
    let named = chunk (without_chunk (lstrip line)) true in
    let inside = ress_loop as_lib expanded (i + 1) named lines in
    let rest = ress_loop as_lib expanded (i + 1) function lines in
    if startswith (lstrip line) (codes ".function:")
    then inside
    else elim (illegal_ress as_lib function (lstrip line)) [
      | none ↦ rest
      | some what ↦ source_line expanded i >>= λ n. some (at_line what n ∷ [])
    ]

unfoldable pub ress_instructions : List Text → SourceLines → Bool → Option (List Complaint)
ress_instructions lines expanded as_lib = ress_loop as_lib expanded 0 [] lines

abbrev pub known_directives : List Text
known_directives =
    codes ".function:"
    ∷ codes ".signature:"
    ∷ codes ".bsignature:"
    ∷ codes ".block:"
    ∷ codes ".end"
    ∷ codes ".name:"
    ∷ codes ".mark:"
    ∷ codes ".main:"
    ∷ codes ".type:"
    ∷ codes ".class:"
    ∷ []

unfoldable pub unknown_directive : Text → Option Text
unknown_directive [] = none
unknown_directive (c ∷ line) =
    let token = chunk (c ∷ line) true in
    if not (c == 46) || is_among token known_directives then none else some token

unfoldable pub directives : List Text → SourceLines → Option (List Complaint)
directives lines expanded = scan unknown_directive expanded 0 lines

-- `OP_SIZES.count(token)`
unfoldable pub has_size : Text → List String → Bool
has_size token [] = false
has_size token (name ∷ names) = codes name =ᵗ token || has_size token names

unfoldable pub unknown_instruction : Text → Option Text
unknown_instruction [] = none
unknown_instruction (c ∷ line) =
    let token = chunk (c ∷ line) true in
    if c == 46 || c == 59
    then none
    else if has_size token sized_instructions
    then none
    else some token

unfoldable pub instructions : List Text → SourceLines → Option (List Complaint)
instructions lines expanded = scan unknown_instruction expanded 0 lines

-- A std::map of bodies, in the order of its keys.
abbrev pub Bodies : Type 0
Bodies = List (Text × List Text)

-- The name of the first function without lines.
unfoldable pub function_bodies_are_nonempty : Bodies → Option Text
function_bodies_are_nonempty [] = none
function_bodies_are_nonempty ((name, []) ∷ functions) = some name
function_bodies_are_nonempty ((name, (line ∷ lines)) ∷ functions) =
    function_bodies_are_nonempty functions

unfoldable pub body_of : Text → Bodies → Option (List Text)
body_of name [] = none
body_of name ((key, lines) ∷ functions) =
    let rest = body_of name functions in if key =ᵗ name then some lines else rest

pub data MainReport : Type 0 where
  undefined_main empty_main main_halts main_fine : MainReport

unfoldable pub last_line : Text → List Text → Text
last_line line [] = line
last_line line (next ∷ lines) = last_line next lines

unfoldable pub main_function_does_not_end_with_halt : Bodies → MainReport
main_function_does_not_end_with_halt functions = elim (body_of (codes "main") functions) [
  | none ↦ undefined_main
  | some [] ↦ empty_main
  | some (line ∷ lines) ↦
      if chunk (lstrip (last_line line lines)) true =ᵗ codes "halt" then main_halts else main_fine
]
