-- ===== src/Assembler/Extract/Invokables.antt =====
-- src/cg/assembler/codeextract.cpp: the names and bodies of functions and blocks.
use viuavm.Common.{
  ◌≡◌, ◌∙◌, ap, refl, true, false, none, some, List, [], ◌∷◌, ◌++◌, All, append-nil, append_assoc,
  Text, codes, ◌=ᵗ◌, =ᵗ-refl, arith, take-length_append, drop-length_append,
}
use viuavm.Common.Throw.{Result, ok}
use viuavm.Text.{startswith, lstrip, chunk}
use viuavm.Text.Words.{sub-append, IsWord, IsSolid, chunk_from-append, chunk_from-word}
use viuavm.Bytecode.Program.Count.{without_chunk}
use viuavm.Assembler.Extract.{
  assign, each_line, directive_word, naming_step, opened_names, get_function_names, get_block_names,
  InvokableType, function, block, opening_of, invokable_name, invoking_step, get_invokables, Fault,
}

-- Lines of code: one line, or a function or block with its name and body.
pub data Part : Type 0 where
  line : Text → Part
  definition : Text → List Text → Part

abbrev pub opening_line : InvokableType → Text → Text
opening_line type name = opening_of type ++ 32 ∷ name

abbrev pub part_lines : InvokableType → Part → List Text → List Text
part_lines type (Part.line l) rest = l ∷ rest
part_lines type (Part.definition name body) rest =
    opening_line type name ∷ (body ++ codes ".end" ∷ rest)

abbrev pub lines_of : InvokableType → List Part → List Text
lines_of type [] = []
lines_of type (p ∷ ps) = part_lines type p (lines_of type ps)

-- No end of a body, and no opening of another one.
abbrev pub IsInner : InvokableType → Text → Type 0
IsInner type l = ((l =ᵗ codes ".end") ≡ false) × (startswith l (opening_of type) ≡ false)

abbrev pub IsPart : InvokableType → Part → Type 0
IsPart type (Part.line l) = startswith l (opening_of type) ≡ false
IsPart type (Part.definition name body) = IsWord name × All (IsInner type) body

-- The names in order; and what each name is the name of, by its last definition.
abbrev pub names_of : List Part → List Text
names_of [] = []
names_of (Part.line l ∷ ps) = names_of ps
names_of (Part.definition name body ∷ ps) = name ∷ names_of ps

abbrev pub bodies_of : List (Text × List Text) → List Part → List (Text × List Text)
bodies_of bodies [] = bodies
bodies_of bodies (Part.line l ∷ ps) = bodies_of bodies ps
bodies_of bodies (Part.definition name body ∷ ps) = bodies_of (assign name body bodies) ps

abbrev pub names_by : InvokableType → List Text → Result Fault (List Text)
names_by function = get_function_names
names_by block = get_block_names

word_behind_space : (name : Text) → IsWord name → chunk (lstrip (32 ∷ name)) true ≡ name
word_behind_space [] h = absurd (omega (arith, h.0))
word_behind_space (c ∷ name) h =
    unfold chunk lstrip in rw (h.1.0, h.1.0) (chunk_from-word (c ∷ name) h.1)

invokable_name-opening :
    (type : InvokableType) (name : Text)
    → IsWord name
    → invokable_name type (opening_line type name) ≡ name
invokable_name-opening type name h =
    ap (λ t. chunk (lstrip t) true) (sub-append (opening_of type) (32 ∷ name))
    ∙ word_behind_space name h

opening-IsSolid : (type : InvokableType) → IsSolid (opening_of type)
opening-IsSolid function =
    (refl, (refl, (refl, (refl, (refl, (refl, (refl, (refl, (refl, (refl, tt))))))))))
opening-IsSolid block = (refl, (refl, (refl, (refl, (refl, (refl, (refl, tt)))))))

chunk-opening :
    (type : InvokableType) (name : Text) → chunk (opening_line type name) true ≡ opening_of type
unfolding chunk
chunk-opening function name =
    unfold lstrip in chunk_from-append (codes ".function:") name (opening-IsSolid function)
chunk-opening block name =
    unfold lstrip in chunk_from-append (codes ".block:") name (opening-IsSolid block)

directive_word-opening :
    (type : InvokableType) (name : Text)
    → IsWord name
    → directive_word (opening_line type name) ≡ name
unfolding without_chunk
directive_word-opening type name h =
    rw (chunk-opening type name, drop-length_append (opening_of type) (32 ∷ name))
      (word_behind_space name h)

startswith-opening :
    (type : InvokableType) (name : Text)
    → startswith (opening_line type name) (opening_of type) ≡ true
unfolding startswith
startswith-opening type name =
    rw (take-length_append (opening_of type) (32 ∷ name)) (=ᵗ-refl (opening_of type))

-- Within a body.
read_body :
    (type : InvokableType) (holdline : Text) (flines body rest : List Text)
    (inv : List (Text × List Text))
    → All (IsInner type) body
    → each_line
        (invoking_step type)
        (record { opened = some (holdline, flines); invokables = inv })
        (body ++ codes ".end" ∷ rest)
      ≡ each_line
          (invoking_step type)
          (record {
            opened = none;
            invokables = assign (invokable_name type holdline) (flines ++ body) inv;
          })
          rest
unfolding each_line invoking_step
read_body type holdline flines [] rest inv h = rw (=ᵗ-refl (codes ".end"), append-nil flines) refl
read_body type holdline flines (l ∷ body) rest inv h =
    rw (h.0.0, h.0.1)
      (read_body type holdline (flines ++ l ∷ []) body rest inv h.1
        ∙ ap
            (λ fs.
              each_line (invoking_step type)
                (record {
                  opened = none;
                  invokables = assign (invokable_name type holdline) fs inv;
                })
                rest)
            (append_assoc flines (l ∷ []) body))

-- The whole text.
read_parts :
    (type : InvokableType) (inv : List (Text × List Text)) (ps : List Part)
    → All (IsPart type) ps
    → each_line (invoking_step type) (record { opened = none; invokables = inv }) (lines_of type ps)
      ≡ ok (record { opened = none; invokables = bodies_of inv ps })
unfolding each_line invoking_step
read_parts type inv [] h = refl
read_parts type inv (Part.line l ∷ ps) h = rw h.0 (read_parts type inv ps h.1)
read_parts type inv (Part.definition name body ∷ ps) h = rw (startswith-opening type name) (
    read_body type (opening_line type name) [] body (lines_of type ps) inv h.0.1
    ∙ rw (invokable_name-opening type name h.0.0) (read_parts type (assign name body inv) ps h.1))

get_invokables-lines_of :
    (type : InvokableType) (ps : List Part)
    → All (IsPart type) ps
    → get_invokables type (lines_of type ps) ≡ ok (bodies_of [] ps)
unfolding get_invokables
get_invokables-lines_of type ps h = rw (read_parts type [] ps h) refl

-- The names: the inner loop of the other two functions passes over a body.
name_body :
    (opening holdline : Text) (body rest : List Text) (names : List Text) (type : InvokableType)
    → All (IsInner type) body
    → each_line
        (naming_step opening)
        (record { opened = some holdline; names = names })
        (body ++ codes ".end" ∷ rest)
      ≡ each_line
          (naming_step opening)
          (record { opened = none; names = names ++ directive_word holdline ∷ [] })
          rest
unfolding each_line naming_step
name_body opening holdline [] rest names type h = rw (=ᵗ-refl (codes ".end")) refl
name_body opening holdline (l ∷ body) rest names type h =
    rw h.0.0 (name_body opening holdline body rest names type h.1)

name_parts :
    (type : InvokableType) (names : List Text) (ps : List Part)
    → All (IsPart type) ps
    → each_line
        (naming_step (opening_of type))
        (record { opened = none; names = names })
        (lines_of type ps)
      ≡ ok (record { opened = none; names = names ++ names_of ps })
unfolding each_line naming_step
name_parts type names [] h = rw (append-nil names) refl
name_parts type names (Part.line l ∷ ps) h = rw h.0 (name_parts type names ps h.1)
name_parts type names (Part.definition name body ∷ ps) h = rw (startswith-opening type name) (
    name_body (opening_of type) (opening_line type name) body (lines_of type ps) names type h.0.1
    ∙ rw (directive_word-opening type name h.0.0) (
        name_parts type (names ++ name ∷ []) ps h.1
        ∙ ap (λ ns. ok (record { opened = none; names = ns }))
            (append_assoc names (name ∷ []) (names_of ps))))

opened_names-lines_of :
    (type : InvokableType) (ps : List Part)
    → All (IsPart type) ps
    → opened_names (opening_of type) (lines_of type ps) ≡ ok (names_of ps)
unfolding opened_names
opened_names-lines_of type ps h = rw (name_parts type [] ps h) refl

names_by_lem : (type : InvokableType) → names_by type ≡ opened_names (opening_of type)
names_by_lem function = unfold get_function_names in refl
names_by_lem block = unfold get_block_names in refl

-- In lines with functions (or blocks) whose names are words, whose bodies have neither a line `.end`
-- nor another opening, and with other lines between them that open none, the assembler finds the
-- names in their order, and for each name the body of its last definition.
pub names_by-get_invokables :
    (type : InvokableType) (ps : List Part)
    → All (IsPart type) ps
    → (names_by type (lines_of type ps) ≡ ok (names_of ps))
      × (get_invokables type (lines_of type ps) ≡ ok (bodies_of [] ps))
names_by-get_invokables type ps h = (
  ap (λ f. f (lines_of type ps)) (names_by_lem type) ∙ opened_names-lines_of type ps h,
  get_invokables-lines_of type ps h,
)
