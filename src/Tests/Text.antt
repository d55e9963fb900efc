-- ===== src/Tests/Text.antt =====
-- Runs of the text helpers, and their theorems at concrete inputs.
use viuavm.Common.{refl, arith, All, ◌++◌, some, ◌≡◌, [], ◌∷◌, codes, Text, List}
use viuavm.Text.{extract_loop, enquote, join, strdecode, extract, chunks}
use viuavm.Bytecode.Encode.{unquoted}
use viuavm.Text.Words.{chunks_lem, solid, flatten, IsWord, chunks-join}
use viuavm.Text.Quotes.{extract_runs_on, literal_roundtrip}

abbrev call_line : List Text
call_line = codes "call" ∷ codes "1" ∷ codes "f" ∷ []

chunks_lem_example :
    (ws : List Text) × (chunks (codes "  call 1") ≡ some ws)
    × All IsWord ws
    × (flatten ws ≡ solid (codes "  call 1"))
chunks_lem_example = chunks_lem (codes "  call 1")

chunks-join_example : chunks (join (32 ∷ []) call_line) ≡ some call_line
chunks-join_example = chunks-join call_line (
  (omega arith, (refl, (refl, (refl, (refl, tt))))),
  ((omega arith, (refl, tt)), ((omega arith, (refl, tt)), tt)),
)

literal_roundtrip_example :
    strdecode (unquoted (extract (enquote (codes "a\"b") ++ codes " 4"))) ≡ codes "a\"b"
literal_roundtrip_example = literal_roundtrip (codes "a\"b") (codes " 4") (omega arith)

extract_runs_on_example :
    extract (codes "\"a\\n\" \"b\"")
    ≡ 34 ∷ (codes "a" ++ 92 ∷ (codes "n" ++ 34 ∷ extract_loop 34 0 (codes " \"b\"")))
extract_runs_on_example =
    extract_runs_on (codes "a") (codes "n") (codes " \"b\"") (omega arith) (omega arith)
