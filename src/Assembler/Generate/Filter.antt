-- ===== src/Assembler/Generate/Filter.antt =====
-- src/front/asm/generate.cpp: `filter`.
use viuavm.Common.{Bool, true, false, not, List, [], ◌∷◌, ◌++◌, if◌then◌else◌, Text, codes, ◌=ᵗ◌}
use viuavm.Common.Throw.{Result, ok, err, ◌>>=◌}
use viuavm.Assembler.Extract.{Fault, past_the_end, each_line}
use viuavm.Assembler.Generate.{is_any_directive, dropped_directives, definitions}

-- `filter`: the lines of instructions. A definition is skipped up to its `.end`.
pub record Filtered : Type 0 where
  pub is_skipping : Bool
  pub filtered : List Text

unfoldable pub filter_step : Filtered → Text → Result Fault Filtered
filter_step s line =
    if s.is_skipping
    then ok (record s { is_skipping = not (line =ᵗ codes ".end") })
    else if is_any_directive dropped_directives line
    then ok s
    else if is_any_directive definitions line
    then ok (record s { is_skipping = true })
    else ok (record s { filtered = s.filtered ++ line ∷ [] })

abbrev pub finish_filter : Filtered → Result Fault (List Text)
finish_filter s = if s.is_skipping then err past_the_end else ok s.filtered

unfoldable pub filter : List Text → Result Fault (List Text)
filter lines =
    each_line filter_step (record { is_skipping = false; filtered = [] }) lines >>= finish_filter
