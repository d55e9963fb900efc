-- ===== src/Assembler/Extract.antt =====
-- src/cg/assembler/codeextract.cpp: what the assembler reads from the lines before it looks at the
-- instructions. A map from names is an association list.
pub mod Invokables
use viuavm.Common.{
  ℕ, suc, Bool, true, false, not, ◌||◌, Option, none, some, List, [], ◌∷◌, ◌++◌, ◌==◌,
  if◌then◌else◌, length, Text, codes, ◌=ᵗ◌,
}
use viuavm.Common.Throw.{Result, ok, err, ◌>>=◌}
use viuavm.Text.{startswith, lstrip, chunk, sub, End}
use viuavm.Bytecode.Program.Count.{without_chunk}
use viuavm.Assembler.Verify.Checks.{is_among}
use viuavm.Assembler.Operands.{NumberError, invalid_argument, out_of_range, stoi}

-- `past_the_end`: a loop reads `lines[j]` for a `j` that no line has. The other two are thrown.
pub data Fault : Type 0 where
  past_the_end nested_opening invalid_register stoi_out_of_range : Fault

-- `line.size()` and not a comment, for a line without leading white space.
abbrev pub is_iline : Text → Bool
is_iline [] = false
is_iline (c ∷ s) = not (c == 59)

abbrev pub keep_line : Text → List Text → List Text
keep_line line ilines = if is_iline line then line ∷ ilines else ilines

unfoldable pub get_ilines : List Text → List Text
get_ilines [] = []
get_ilines (line ∷ lines) = keep_line (lstrip line) (get_ilines lines)

-- `map[name] = value`
unfoldable pub assign {ℓ} : {A : Type ℓ} → Text → A → List (Text × A) → List (Text × A)
assign name value [] = (name, value) ∷ []
assign name value ((key, old) ∷ entries) =
    let rest = assign name value entries in
    if key =ᵗ name then (key, value) ∷ entries else (key, old) ∷ rest

-- A loop over the lines with a state.
unfoldable pub each_line {ℓ} :
    {S : Type ℓ} → (S → Text → Result Fault S) → S → List Text → Result Fault S
each_line step s [] = ok s
each_line step s (line ∷ lines) = step s line >>= λ s'. each_line step s' lines

-- The loop of `getmarks`: in a function it skips lines up to one that begins with `.end`.
pub record Marks : Type 0 where
  is_skipping : Bool
  instruction : ℕ
  marks : List (Text × ℕ)

abbrev pub mark_of : Text → Text
mark_of line = chunk (lstrip (sub line 6 (End.from_end 0))) true

unfoldable pub marks_step : Marks → Text → Result Fault Marks
marks_step s line =
    if s.is_skipping
    then ok (record s { is_skipping = not (startswith line (codes ".end")) })
    else if startswith line (codes ".name:") || startswith line (codes ".link:")
    then ok s
    else if startswith line (codes ".function:")
    then ok (record s { is_skipping = true })
    else if not (startswith line (codes ".mark:"))
    then ok (record s { instruction = suc s.instruction })
    else ok (record s { marks = assign (mark_of line) s.instruction s.marks })

abbrev pub finish_marks : Marks → Result Fault (List (Text × ℕ))
finish_marks s = if s.is_skipping then err past_the_end else ok s.marks

unfoldable pub get_marks : List Text → Result Fault (List (Text × ℕ))
get_marks lines =
    each_line marks_step (record { is_skipping = false; instruction = 0; marks = [] }) lines
    >>= λ s. finish_marks s

-- `stoi(reg)`; only `invalid_argument` is caught, and thrown as another error.
abbrev pub register_index : Result NumberError ℕ → Result Fault ℕ
register_index (ok n) = ok n
register_index (err invalid_argument) = err invalid_register
register_index (err out_of_range) = err stoi_out_of_range

abbrev pub name_entry : Text → List (Text × ℕ) → Result Fault (List (Text × ℕ))
name_entry line names =
    let reg = chunk line true in
    let name = chunk (lstrip (sub line (length reg) (End.from_end 0))) true in
    register_index (stoi reg) >>= λ index. ok (assign name index names)

unfoldable pub names_step : List (Text × ℕ) → Text → Result Fault (List (Text × ℕ))
names_step names line =
    if not (startswith line (codes ".name:"))
    then ok names
    else name_entry (lstrip (sub line 6 (End.from_end 0))) names

unfoldable pub get_names : List Text → Result Fault (List (Text × ℕ))
get_names lines = each_line names_step [] lines

-- The word behind a directive: `chunk(lstrip(sub(line, chunk(line).size())))`.
abbrev pub directive_word : Text → Text
directive_word line = chunk (without_chunk line) true

-- The words behind a directive, of the lines that begin with it.
unfoldable pub words_behind : Text → List Text → List Text
words_behind directive [] = []
words_behind directive (line ∷ lines) =
    let rest = words_behind directive lines in
    if startswith line directive then directive_word line ∷ rest else rest

unfoldable pub get_links : List Text → List Text
get_links = words_behind (codes ".link:")

unfoldable pub get_signatures : List Text → List Text
get_signatures = words_behind (codes ".signature:")

unfoldable pub get_block_signatures : List Text → List Text
get_block_signatures = words_behind (codes ".bsignature:")

-- A set: the last of several equal names stays.
unfoldable pub distinct : List Text → List Text
distinct [] = []
distinct (name ∷ names) =
    let rest = distinct names in if is_among name names then rest else name ∷ rest

unfoldable pub get_type_names : List Text → List Text
get_type_names lines = distinct (words_behind (codes ".type:") lines)

-- The loop of `getFunctionNames` and `getBlockNames`. `opened` is the line of a function that the inner
-- loop is in; that loop stops before `.end`, which begins with neither directive.
pub record Naming : Type 0 where
  opened : Option Text
  names : List Text

abbrev pub names_outside : Text → Naming → Text → Naming
names_outside opening s line =
    if startswith line opening then record s { opened = some line } else s

abbrev pub names_inside : Text → Naming → Text → Naming
names_inside holdline s line =
    if line =ᵗ codes ".end"
    then record { opened = none; names = s.names ++ directive_word holdline ∷ [] }
    else s

abbrev pub naming_by : Text → Option Text → Naming → Text → Naming
naming_by opening none s line = names_outside opening s line
naming_by opening (some holdline) s line = names_inside holdline s line

unfoldable pub naming_step : Text → Naming → Text → Result Fault Naming
naming_step opening s line = ok (naming_by opening s.opened s line)

abbrev pub if_closed {ℓ κ} : {A : Type ℓ} {B : Type κ} → Option A → B → Result Fault B
if_closed none result = ok result
if_closed (some opened) result = err past_the_end

unfoldable pub opened_names : Text → List Text → Result Fault (List Text)
opened_names opening lines =
    each_line (naming_step opening) (record { opened = none; names = [] }) lines >>= λ s.
    if_closed s.opened s.names

unfoldable pub get_function_names : List Text → Result Fault (List Text)
get_function_names = opened_names (codes ".function:")

unfoldable pub get_block_names : List Text → Result Fault (List Text)
get_block_names = opened_names (codes ".block:")

-- The type of an invokable, by its directive.
pub data InvokableType : Type 0 where
  function block : InvokableType

abbrev pub opening_of : InvokableType → Text
opening_of function = codes ".function:"
opening_of block = codes ".block:"

-- `opened`: the opening line and the lines that the inner loop has read.
pub record Invoking : Type 0 where
  opened : Option (Text × List Text)
  invokables : List (Text × List Text)

-- The name is what stands behind the directive itself.
abbrev pub invokable_name : InvokableType → Text → Text
invokable_name type line =
    chunk (lstrip (sub line (length (opening_of type)) (End.from_end 0))) true

abbrev pub invokables_outside : InvokableType → Invoking → Text → Result Fault Invoking
invokables_outside type s line =
    ok (if startswith line (opening_of type) then record s { opened = some (line, []) } else s)

abbrev pub invokables_inside :
    InvokableType → Text → List Text → Invoking → Text → Result Fault Invoking
invokables_inside type holdline flines s line =
    if line =ᵗ codes ".end"
    then ok (record {
      opened = none;
      invokables = assign (invokable_name type holdline) flines s.invokables;
    })
    else if startswith line (opening_of type)
    then err nested_opening
    else ok (record s { opened = some (holdline, flines ++ line ∷ []) })

abbrev pub invoking_by :
    InvokableType → Option (Text × List Text) → Invoking → Text → Result Fault Invoking
invoking_by type none s line = invokables_outside type s line
invoking_by type (some (holdline, flines)) s line = invokables_inside type holdline flines s line

unfoldable pub invoking_step : InvokableType → Invoking → Text → Result Fault Invoking
invoking_step type s line = invoking_by type s.opened s line

unfoldable pub get_invokables : InvokableType → List Text → Result Fault (List (Text × List Text))
get_invokables type lines =
    each_line (invoking_step type) (record { opened = none; invokables = [] }) lines >>= λ s.
    if_closed s.opened s.invokables
