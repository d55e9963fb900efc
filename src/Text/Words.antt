-- ===== src/Text/Words.antt =====
-- `chunk`, `chunks` and `join`: words and the white space between them.
use viuavm.Common.{
  take, drop-length_append, length-append, ℕ, zero, suc, ◌≤◌, ◌<◌, ◌≡◌, refl, true, false,
  if◌then◌else◌, Option, none, some, List, [], ◌∷◌, ◌++◌, arith, length, length-drop, drop, Text,
  All, Bool-cases, inl, inr, ap, ◌∙◌,
}
use viuavm.Text.{
  sub, end_of, End, push_front, is_space, lstrip, chunk_from, chunk, chunks_loop, chunks, join,
}

-- No white space in it.
abbrev pub IsSolid : Text → Type 0
IsSolid = All (λ c. is_space c ≡ false)

abbrev pub IsWord : Text → Type 0
IsWord s = (0 < length s) × IsSolid s

-- The characters that are not white space.
unfoldable pub solid : Text → Text
solid [] = []
solid (c ∷ s) = if is_space c then solid s else c ∷ solid s

abbrev pub flatten : List Text → Text
flatten [] = []
flatten (s ∷ ss) = s ++ flatten ss

lstrip-length : (s : Text) → length (lstrip s) ≤ length s
unfolding lstrip
lstrip-length [] = omega arith
lstrip-length (c ∷ s) = ground (arith, lstrip-length s)

solid-lstrip : (s : Text) → solid (lstrip s) ≡ solid s
unfolding solid lstrip
solid-lstrip [] = refl
solid-lstrip (c ∷ s) = ground (arith, solid-lstrip s)

-- A text that begins with a character that is not white space: what `lstrip` leaves.
abbrev pub Starts : Text → Type 0
Starts [] = Unit
Starts (c ∷ s) = is_space c ≡ false

lstrip-Starts : (s : Text) → Starts (lstrip s)
unfolding lstrip
lstrip-Starts [] = tt
lstrip-Starts (c ∷ s) = elim (Bool-cases (is_space c)) [
  | inl space ↦ rw space (lstrip-Starts s)
  | inr other ↦ rw other other
]

pub lstrip-Starts_eq : (s : Text) → Starts s → lstrip s ≡ s
unfolding lstrip
lstrip-Starts_eq [] h = refl
lstrip-Starts_eq (c ∷ s) h = rw h refl

chunk_from-IsSolid : (s : Text) → IsSolid (chunk_from s)
unfolding chunk_from
chunk_from-IsSolid [] = tt
chunk_from-IsSolid (c ∷ s) = elim (Bool-cases (is_space c)) [
  | inl space ↦ rw space tt
  | inr other ↦ rw other (other, chunk_from-IsSolid s)
]

-- A first chunk and the solid characters behind it.
solid-chunk_from : (s : Text) → chunk_from s ++ solid (drop (length (chunk_from s)) s) ≡ solid s
unfolding solid chunk_from
solid-chunk_from [] = refl
solid-chunk_from (c ∷ s) = ground (arith, solid-chunk_from s)

-- Fuel for each character is enough, every chunk is a word, and no solid character is lost.
abbrev Chunks : Text → Option (List Text) → Type 0
Chunks s none = ⊥
Chunks s (some ws) = All IsWord ws × (flatten ws ≡ solid s)

-- The first chunk of a text that starts with a solid character.
chunk-Starts : (c : ℕ) (s : Text) → is_space c ≡ false → chunk (c ∷ s) true ≡ c ∷ chunk_from s
unfolding chunk chunk_from lstrip
chunk-Starts c s h = ground arith

next_chunk :
    (chnk s rest : Text) (r : Option (List Text))
    → IsWord chnk
    → chnk ++ solid rest ≡ solid s
    → Chunks rest r
    → Chunks s (push_front chnk r)
next_chunk chnk s rest none w e h = h
next_chunk chnk s rest (some ws) w e (words, content) = ((w, words), rw content e)

-- One round, on a text that starts with a solid character.
chunks_loop_step :
    (fuel c : ℕ) (s : Text)
    → is_space c ≡ false
    → chunks_loop (suc fuel) (c ∷ s)
      ≡ push_front (c ∷ chunk_from s) (chunks_loop fuel (lstrip (drop (length (chunk_from s)) s)))
unfolding chunks_loop
chunks_loop_step fuel c s h =
    ap (λ (w : Text). push_front w (chunks_loop fuel (lstrip (drop (length w) (c ∷ s)))))
      (chunk-Starts c s h)

chunks_loop-Chunks :
    (fuel : ℕ) (s : Text) → Starts s → length s ≤ fuel → Chunks s (chunks_loop fuel s)
chunks_loop-Chunks fuel [] h room = unfold chunks_loop solid in (tt, refl)
chunks_loop-Chunks zero (c ∷ s) h room = absurd (omega arith)
chunks_loop-Chunks (suc fuel) (c ∷ s) h room =
    let later : Text = drop (length (chunk_from s)) s in
    rw (chunks_loop_step fuel c s h) (
      next_chunk (c ∷ chunk_from s) (c ∷ s) (lstrip later) _
        (omega arith, (h, chunk_from-IsSolid s))
        (rw (solid-lstrip later, solid-chunk_from s) (unfold solid in rw h refl))
        (chunks_loop-Chunks fuel (lstrip later) (lstrip-Starts later)
          (omega (arith, lstrip-length later, length-drop (length (chunk_from s)) s))))

-- `chunks` ends on every text with a list of words, which hold its solid characters in order.
pub chunks_lem :
    (s : Text) → (ws : List Text) × (chunks s ≡ some ws) × All IsWord ws × (flatten ws ≡ solid s)
unfolding chunks
chunks_lem s =
    found _ (chunks_loop-Chunks (length s) (lstrip s) (lstrip-Starts s) (lstrip-length s))
  where
    found :
        (r : Option (List Text))
        → Chunks (lstrip s) r
        → (ws : List Text) × (r ≡ some ws) × All IsWord ws × (flatten ws ≡ solid s)
    found none h = absurd h
    found (some ws) (words, content) = (ws, refl, words, content ∙ solid-lstrip s)

-- A word, a space and what follows.
pub chunk_from-append : (w rest : Text) → IsSolid w → chunk_from (w ++ 32 ∷ rest) ≡ w
unfolding chunk_from
chunk_from-append [] rest h = refl
chunk_from-append (c ∷ w) rest h = rw (h.0, chunk_from-append w rest h.1) refl

pub chunk_from-word : (w : Text) → IsSolid w → chunk_from w ≡ w
unfolding chunk_from
chunk_from-word [] h = refl
chunk_from-word (c ∷ w) h = rw (h.0, chunk_from-word w h.1) refl

pub drop-length_self {ℓ} : {A : Type ℓ} (xs : List A) → drop (length xs) xs ≡ []
drop-length_self [] = refl
drop-length_self (x ∷ xs) = drop-length_self xs

join-Starts : (w : Text) (ws : List Text) → IsWord w → Starts (join (32 ∷ []) (w ∷ ws))
unfolding join
join-Starts [] ws h = absurd (omega (arith, h.0))
join-Starts (c ∷ w) [] h = h.1.0
join-Starts (c ∷ w) (v ∷ ws) h = h.1.0

join_cons :
    (w v : Text) (ws : List Text)
    → join (32 ∷ []) (w ∷ (v ∷ ws)) ≡ w ++ 32 ∷ join (32 ∷ []) (v ∷ ws)
unfolding join
join_cons w v ws = refl

length-join : (ws : List Text) → All IsWord ws → length ws ≤ length (join (32 ∷ []) ws)
length-join [] h = omega arith
length-join (w ∷ []) h = unfold join in omega arith
length-join (w ∷ (v ∷ ws)) h = omega (
  arith,
  ap length (join_cons w v ws),
  length-append w (32 ∷ join (32 ∷ []) (v ∷ ws)),
  length-join (v ∷ ws) h.1,
  h.0.0,
)

chunks_loop-join :
    (fuel : ℕ) (ws : List Text)
    → All IsWord ws
    → length ws ≤ fuel
    → chunks_loop fuel (join (32 ∷ []) ws) ≡ some ws
chunks_loop-join fuel [] h room = unfold chunks_loop join in refl
chunks_loop-join zero (w ∷ ws) h room = absurd (omega arith)
chunks_loop-join (suc fuel) ([] ∷ ws) h room = absurd (omega (arith, h.0.0))
chunks_loop-join (suc fuel) ((c ∷ w) ∷ []) h room =
    unfold join in
    chunks_loop_step fuel c w h.0.1.0
    ∙ rw (chunk_from-word w h.0.1.1, drop-length_self w) (unfold lstrip chunks_loop in refl)
chunks_loop-join (suc fuel) ((c ∷ w) ∷ (v ∷ ws)) h room =
    let later : Text = join (32 ∷ []) (v ∷ ws) in
    ap (chunks_loop (suc fuel)) (join_cons (c ∷ w) v ws)
    ∙ chunks_loop_step fuel c (w ++ 32 ∷ later) h.0.1.0
    ∙ rw (chunk_from-append w later h.0.1.1, drop-length_append w (32 ∷ later))
        (ap (λ (t : Text). push_front (c ∷ w) (chunks_loop fuel t))
            (space_then later (join-Starts v ws h.1.0))
          ∙ rw (chunks_loop-join fuel (v ∷ ws) h.1 (omega arith)) refl)
  where
    space_then : (t : Text) → Starts t → lstrip (32 ∷ t) ≡ t
    space_then t s = unfold lstrip in lstrip-Starts_eq t s

joined-Starts : (ws : List Text) → All IsWord ws → Starts (join (32 ∷ []) ws)
joined-Starts [] h = unfold join in tt
joined-Starts (w ∷ ws) h = join-Starts w ws h.0

-- In words without white space that are joined by a space `chunks` finds those words.
pub chunks-join : (ws : List Text) → All IsWord ws → chunks (join (32 ∷ []) ws) ≡ some ws
unfolding chunks
chunks-join ws h =
    rw (lstrip-Starts_eq (join (32 ∷ []) ws) (joined-Starts ws h))
      (chunks_loop-join (length (join (32 ∷ []) ws)) ws h (length-join ws h))

take-length_self : (s : Text) → take (length s) s ≡ s
take-length_self [] = refl
take-length_self (c ∷ s) = ap (λ t. c ∷ t) (take-length_self s)

end_of_last : (s : Text) → end_of s (End.from_end 0) ≡ length s
unfolding end_of
end_of_last s = ground arith

-- The rest of a text behind its beginning.
pub sub-append : (o r : Text) → sub (o ++ r) (length o) (End.from_end 0) ≡ r
unfolding sub
sub-append o r = rw (end_of_last (o ++ r), take-length_self (o ++ r)) (drop-length_append o r)
