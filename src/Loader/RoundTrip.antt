-- ===== src/Loader/RoundTrip.antt =====
-- Reading a table of addresses that was written.
use viuavm.Common.{
  length-map, ◌*◌, ◌-◌, append_assoc, ◌∙◌, append-nil, length-append, sym, refl, map, ap,
  drop-plus_append, arith, ◌≡◌, ◌≤◌, ◌++◌, ◌≢◌, ◌%◌, length, ◌<◌, drop, All, ◌+◌, Text, List, ℕ, [],
  ◌∷◌, some, zero, suc,
}
use viuavm.Loader.{
  increased, ids_section_size, names_size, Mapping, put, name_at, address_at, load_loop, load_map,
  address_bytes, write_table,
}

-- The start of each body: the number of bytes of the bodies before it, modulo 2^16.
abbrev pub starts : ℕ → List (Text × ℕ) → List (Text × ℕ)
starts so_far [] = []
starts so_far ((name, bytes) ∷ bodies) = (name, so_far) ∷ starts ((so_far + bytes) % 65536) bodies

abbrev pub put_all : Mapping → List (Text × ℕ) → Mapping
put_all mapping [] = mapping
put_all mapping ((name, address) ∷ entries) = put_all (put name address mapping) entries

abbrev pub name_of : Text × ℕ → Text
name_of body = body.0

abbrev pub IsName : Text × ℕ → Type 0
IsName body = All (λ c. c ≢ 0) body.0

name_at-name :
    (name : Text) (rest : List ℕ) → All (λ c. c ≢ 0) name → name_at (name ++ 0 ∷ rest) ≡ some name
unfolding name_at
name_at-name [] rest h = refl
name_at-name (c ∷ name) rest h = ground (arith, name_at-name name rest h.1)

behind_name : (name : Text) (rest : List ℕ) → drop (length name + 1) (name ++ 0 ∷ rest) ≡ rest
behind_name name rest = drop-plus_append 1 name (0 ∷ rest)

address_at-bytes :
    (n : ℕ) (rest : List ℕ) → n < 65536 → address_at (address_bytes n ++ rest) ≡ some (n, rest)
unfolding address_at address_bytes
address_at-bytes n rest h = ap (λ k. some (k, rest)) (omega arith)

-- One round on one entry.
load_entry :
    (fuel left n : ℕ) (name : Text) (rest : List ℕ) (order : List Text) (mapping : Mapping)
    → All (λ c. c ≢ 0) name
    → n < 65536
    → load_loop
        (suc fuel)
        (suc (length name + 2 + left))
        (name ++ 0 ∷ (address_bytes n ++ rest))
        order
        mapping
      ≡ load_loop fuel left rest (order ++ name ∷ []) (put name n mapping)
unfolding load_loop
load_entry fuel left n name rest order mapping h small =
    let passed : suc (length name + 2 + left) - (length name + 3) ≡ left = omega arith in
    rw
      (
        name_at-name name (address_bytes n ++ rest) h,
        behind_name name (address_bytes n ++ rest),
        address_at-bytes n rest small,
        passed,
      )
      refl

length-table :
    (name : Text) (bytes : ℕ) (bodies : List (Text × ℕ)) (so_far : ℕ)
    → length (write_table so_far ((name, bytes) ∷ bodies))
      ≡ suc (length name + 2 + length (write_table ((so_far + bytes) % 65536) bodies))
unfolding write_table address_bytes
length-table name bytes bodies so_far = omega (
  arith,
  length-append name (0 ∷ (address_bytes so_far ++ write_table ((so_far + bytes) % 65536) bodies)),
)

load_loop-write_table :
    (bodies : List (Text × ℕ)) (fuel so_far : ℕ) (order : List Text) (mapping : Mapping)
    → All IsName bodies
    → so_far < 65536
    → length bodies ≤ fuel
    → load_loop fuel (length (write_table so_far bodies)) (write_table so_far bodies) order mapping
      ≡ some (order ++ map name_of bodies, put_all mapping (starts so_far bodies))
load_loop-write_table [] fuel so_far order mapping h small room =
    unfold load_loop write_table in ap (λ o. some (o, mapping)) (sym (append-nil order))
load_loop-write_table (body ∷ bodies) zero so_far order mapping h small room = absurd (omega arith)
load_loop-write_table ((name, bytes) ∷ bodies) (suc fuel) so_far order mapping h small room =
    ap
      (λ left.
        load_loop (suc fuel) left (write_table so_far ((name, bytes) ∷ bodies)) order mapping)
      (length-table name bytes bodies so_far)
    ∙ first_entry
    ∙ load_loop-write_table bodies fuel ((so_far + bytes) % 65536) (order ++ name ∷ [])
        (put name so_far mapping) h.1 (omega arith) (omega arith)
    ∙ ap (λ o. some (o, put_all mapping (starts so_far ((name, bytes) ∷ bodies))))
        (append_assoc order (name ∷ []) (map name_of bodies))
  where
    first_entry :
        load_loop
          (suc fuel)
          (suc (length name + 2 + length (write_table ((so_far + bytes) % 65536) bodies)))
          (write_table so_far ((name, bytes) ∷ bodies))
          order
          mapping
        ≡ load_loop fuel
            (length (write_table ((so_far + bytes) % 65536) bodies))
            (write_table ((so_far + bytes) % 65536) bodies)
            (order ++ name ∷ [])
            (put name so_far mapping)
    first_entry = unfold write_table in load_entry fuel _ so_far name _ order mapping h.0 small

-- The size that is computed for the table is that of the table.
abbrev bytes_of_names : List Text → ℕ
bytes_of_names [] = 0
bytes_of_names (name ∷ names) = length name + bytes_of_names names

names_size_lem :
    (names : List Text) (n : ℕ)
    → n + bytes_of_names names < 65536
    → names_size n names ≡ n + bytes_of_names names
unfolding names_size
names_size_lem [] n h = omega arith
names_size_lem (name ∷ names) n h =
    ap (λ k. names_size k names) (small_sum n (length name) (omega arith))
    ∙ names_size_lem names (n + length name) (omega arith)
    ∙ omega arith
  where
    small_sum : (a b : ℕ) → a + b < 65536 → increased a b ≡ a + b
    small_sum a b h = omega arith

length-write_table :
    (bodies : List (Text × ℕ)) (so_far : ℕ)
    → length (write_table so_far bodies)
      ≡ bytes_of_names (map name_of bodies) + 3 * length (map name_of bodies)
length-write_table [] so_far = unfold write_table in refl
length-write_table ((name, bytes) ∷ bodies) so_far = omega (
  arith,
  length-table name bytes bodies so_far,
  length-write_table bodies ((so_far + bytes) % 65536),
)

ids_section_size_lem :
    (names : List Text)
    → bytes_of_names names + 3 * length names < 65536
    → ids_section_size names ≡ bytes_of_names names + 3 * length names
unfolding ids_section_size
ids_section_size_lem names h = omega (arith, names_size_lem names 0 (omega arith))

-- From a table of less than 2^16 bytes that was written for bodies without NUL in their names, none of
-- which is linked, with the size that is written in front of it, `loadmap` reads the names in their order, and the mapping that
-- puts each name, in order, to the number of bytes of the bodies before it, modulo 2^16.
pub load_map-write_table :
    (bodies : List (Text × ℕ))
    → All IsName bodies
    → length (write_table 0 bodies) < 65536
    → load_map (write_table 0 bodies) (ids_section_size (map name_of bodies))
      ≡ some (map name_of bodies, put_all [] (starts 0 bodies))
unfolding load_map
load_map-write_table bodies h small =
    let size = length-write_table bodies 0 in
    let section = ids_section_size_lem (map name_of bodies) (omega (arith, size)) in
    ap (λ left. load_loop (length (write_table 0 bodies)) left (write_table 0 bodies) [] [])
      (omega (arith, size, section))
    ∙ load_loop-write_table bodies (length (write_table 0 bodies)) 0 [] [] h (omega arith)
        (omega (arith, size, length-map bodies name_of))
