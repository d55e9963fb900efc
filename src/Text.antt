-- ===== src/Text.antt =====
-- src/support/string.cpp: `namespace str`. A character is its code.
pub mod Words
pub mod Quotes
use viuavm.Common.{
  ℕ, zero, suc, ◌+◌, ◌-◌, ◌≤◌, ◌≡◌, Bool, true, false, not, ◌&&◌, ◌||◌, Option, none, some, List,
  [], ◌∷◌, ◌++◌, ◌==◌, ltb, leb, if◌then◌else◌, length, take, drop, Text, codes, ◌=ᵗ◌,
}

-- ' ', '\t', '\v' and '\n'.
abbrev pub is_space : ℕ → Bool
is_space c = c == 32 || c == 9 || c == 11 || c == 10

abbrev pub is_digit : ℕ → Bool
is_digit c = leb 48 c && leb c 57

-- `s.compare(0, w.length(), w) == 0`
unfoldable pub startswith : Text → Text → Bool
startswith s w = take (length w) s =ᵗ w

-- `s.compare(s.length()-w.length(), s.length(), w) == 0`: where `w` is the longer one the difference
-- wraps around and `compare` throws.
unfoldable pub endswith : Text → Text → Option Bool
endswith s w = if leb (length w) (length s) then some (drop (length s - length w) s =ᵗ w) else none

-- The second half of a substring: `e` counts from the start, `from_end e` is the negative -(e + 1).
pub data End : Type 0 where
  from_start from_end : ℕ → End

-- The end of a substring as `sub` computes it: `s.size() + e + 1` for a negative `e`. (A value below
-- zero wraps around and is no bound.)
unfoldable pub end_of : Text → End → ℕ
end_of s (End.from_start e) = e
end_of s (End.from_end e) = if leb e (length s) then length s - e else length s

unfoldable pub sub : Text → ℕ → End → Text
sub s b e = drop b (take (end_of s e) s)

-- The loop over leading white space, and `sub(s, i)`.
unfoldable pub lstrip : Text → Text
lstrip [] = []
lstrip (c ∷ s) = if is_space c then lstrip s else c ∷ s

-- The characters up to the first white space.
unfoldable pub chunk_from : Text → Text
chunk_from [] = []
chunk_from (c ∷ s) = if is_space c then [] else c ∷ chunk_from s

unfoldable pub chunk : Text → Bool → Text
chunk s ignore_leading_ws = chunk_from (if ignore_leading_ws then lstrip s else s)

unfoldable pub startswithchunk : Text → Text → Bool
startswithchunk s w = chunk s true =ᵗ w

-- `chnks.push_back(chnk)`, before what the later rounds push.
abbrev pub push_front : Text → Option (List Text) → Option (List Text)
push_front chnk none = none
push_front chnk (some chnks) = some (chnk ∷ chnks)

-- `while (tmp.size())`, with fuel; `none` means that it ran out.
unfoldable pub chunks_loop : ℕ → Text → Option (List Text)
chunks_loop fuel [] = some []
chunks_loop zero (c ∷ tmp) = none
chunks_loop (suc fuel) (c ∷ tmp) =
    let chnk = chunk (c ∷ tmp) true in
    push_front chnk (chunks_loop fuel (lstrip (drop (length chnk) (c ∷ tmp))))

unfoldable pub chunks : Text → Option (List Text)
chunks s = chunks_loop (length s) (lstrip s)

unfoldable pub join : Text → List Text → Text
join s [] = []
join s (part ∷ []) = part
join s (part ∷ (next ∷ parts)) = part ++ (s ++ join s (next ∷ parts))

-- `isnum`: `num` is the verdict on the characters before.
unfoldable pub isnum_loop : Bool → Text → Bool
isnum_loop num [] = num
isnum_loop num (c ∷ s) = if is_digit c then isnum_loop true s else false

unfoldable pub isnum : Text → Bool → Bool
isnum [] negatives = false
isnum (c ∷ s) negatives =
    if c == 45 && negatives then isnum_loop false s else isnum_loop false (c ∷ s)

-- The characters before the first '.', and those behind it.
unfoldable pub before_dot : Text → Text
before_dot [] = []
before_dot (c ∷ s) = if c == 46 then [] else c ∷ before_dot s

unfoldable pub after_dot : Text → Text
after_dot [] = []
after_dot (c ∷ s) = if c == 46 then s else after_dot s

unfoldable pub contains : Text → ℕ → Bool
contains [] c = false
contains (d ∷ s) c = d == c || contains s c

-- Without a dot `dot` stays -1, and both halves are the whole text.
unfoldable pub isfloat : Text → Bool → Bool
isfloat s negatives =
    if contains s 46
    then isnum (before_dot s) negatives && isnum (after_dot s) true
    else isnum s negatives && isnum s true

-- The number of leading characters that `s` and `w` share.
unfoldable pub lshare : Text → Text → ℕ
lshare [] w = 0
lshare (c ∷ s) [] = 0
lshare (c ∷ s) (d ∷ w) = if c == d then suc (lshare s w) else 0

-- `extract`: the loop behind the first character, the delimiter. `backs` counts backslashes.
unfoldable pub extract_loop : ℕ → ℕ → Text → Text
extract_loop quote backs [] = []
extract_loop quote backs (c ∷ s) =
    if c == quote && backs == 0
    then c ∷ []
    else c
      ∷ extract_loop quote
          (if c == quote && not (backs == 0) then 0 else if c == 92 then backs + 1 else backs) s

unfoldable pub extract : Text → Text
extract [] = []
extract (quote ∷ s) = quote ∷ extract_loop quote 0 s

-- `enquote`: a backslash before each '"'.
unfoldable pub escaped : Text → Text
escaped [] = []
escaped (c ∷ s) = if c == 34 then 92 ∷ (c ∷ escaped s) else c ∷ escaped s

unfoldable pub enquote : Text → Text
enquote s = 34 ∷ (escaped s ++ 34 ∷ [])

-- The character that an escape sequence stands for, by the character behind the backslash.
unfoldable pub escape_code : ℕ → ℕ
escape_code c =
    if c == 97
    then 7
    else if c == 98
    then 8
    else if c == 102
    then 12
    else if c == 110
    then 10
    else if c == 114
    then 13
    else if c == 116
    then 9
    else if c == 118
    then 11
    else c

-- A backslash that ends the text stands for itself.
unfoldable pub strdecode : Text → Text
strdecode [] = []
strdecode (c ∷ []) = c ∷ []
strdecode (c ∷ (d ∷ s)) =
    let plain = c ∷ strdecode (d ∷ s) in
    let sequence = escape_code d ∷ strdecode s in if c == 92 then sequence else plain

-- `stringify(vector<string>)`: the quoted elements in brackets.
unfoldable pub stringify_elements : List Text → Text
stringify_elements [] = []
stringify_elements (s ∷ []) = enquote s
stringify_elements (s ∷ (t ∷ sv)) = enquote s ++ (codes ", " ++ stringify_elements (t ∷ sv))

unfoldable pub stringify : List Text → Text
stringify sv = 91 ∷ (stringify_elements sv ++ 93 ∷ [])
