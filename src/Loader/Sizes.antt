-- ===== src/Loader/Sizes.antt =====
-- The sizes of functions, from the addresses that were written for them.
use viuavm.Common.{
  sym, arith, map, ◌∙◌, ap, ◌<◌, ◌%◌, =ᵗ-eq, refl, inr, inl, Bool-cases, =ᵗ-refl, false, ◌≡◌, ◌+◌,
  All, ℕ, List, Text, [], ◌∷◌, ◌=ᵗ◌, if◌then◌else◌,
}
use viuavm.Loader.{Mapping, put, find_address, minus32, calculate_function_sizes}
use viuavm.Loader.RoundTrip.{starts, put_all, name_of}

-- No name twice.
abbrev pub Fresh : Text → List (Text × ℕ) → Type 0
Fresh name bodies = All (λ body. (body.0 =ᵗ name) ≡ false) bodies

abbrev pub IsDistinct : List (Text × ℕ) → Type 0
IsDistinct [] = Unit
IsDistinct ((name, bytes) ∷ bodies) = Fresh name bodies × IsDistinct bodies

abbrev pub total_bytes : List (Text × ℕ) → ℕ
total_bytes [] = 0
total_bytes ((name, bytes) ∷ bodies) = bytes + total_bytes bodies

find_address-put :
    (name : Text) (address : ℕ) (m : Mapping) → find_address name (put name address m) ≡ address
unfolding find_address put
find_address-put name address [] = rw (=ᵗ-refl name) refl
find_address-put name address ((key, old) ∷ m) = elim (Bool-cases (key =ᵗ name)) [
  | inl same ↦ rw (same, same) refl
  | inr other ↦ rw (other, other) (find_address-put name address m)
]

find_address-put_other :
    (name key : Text) (address : ℕ) (m : Mapping)
    → (key =ᵗ name) ≡ false
    → find_address name (put key address m) ≡ find_address name m
unfolding find_address put
find_address-put_other name key address [] h = rw h refl
find_address-put_other name key address ((k, old) ∷ m) h = elim (Bool-cases (k =ᵗ key)) [
  | inl same ↦ rw (same, =ᵗ-eq k key same, h) refl
  | inr other ↦
      rw other
        (ap (λ r. if k =ᵗ name then old else r) (find_address-put_other name key address m h))
]

find_address-put_all :
    (name : Text) (bodies : List (Text × ℕ)) (so_far : ℕ) (m : Mapping)
    → Fresh name bodies
    → find_address name (put_all m (starts so_far bodies)) ≡ find_address name m
find_address-put_all name [] so_far m h = refl
find_address-put_all name ((key, bytes) ∷ bodies) so_far m h =
    find_address-put_all name bodies ((so_far + bytes) % 65536) (put key so_far m) h.1
    ∙ find_address-put_other name key so_far m h.0

-- A mapping has the addresses of the entries.
abbrev Holds : Mapping → List (Text × ℕ) → Type 0
Holds m entries = All (λ entry. find_address entry.0 m ≡ entry.1) entries

put_all-Holds :
    (bodies : List (Text × ℕ)) (so_far : ℕ) (m : Mapping)
    → IsDistinct bodies
    → Holds (put_all m (starts so_far bodies)) (starts so_far bodies)
put_all-Holds [] so_far m h = tt
put_all-Holds ((name, bytes) ∷ bodies) so_far m h = (
  find_address-put_all name bodies ((so_far + bytes) % 65536) (put name so_far m) h.0
      ∙ find_address-put name so_far m,
  put_all-Holds bodies ((so_far + bytes) % 65536) (put name so_far m) h.1,
)

sizes_from :
    (m : Mapping) (bodies : List (Text × ℕ)) (so_far : ℕ)
    → Holds m (starts so_far bodies)
    → so_far + total_bytes bodies < 65536
    → calculate_function_sizes m (so_far + total_bytes bodies) (map name_of bodies) ≡ bodies
unfolding calculate_function_sizes minus32
sizes_from m [] so_far h small = refl
sizes_from m ((name, bytes) ∷ []) so_far h small = ap (λ n. (name, n) ∷ []) (omega (arith, h.0))
sizes_from m ((name, bytes) ∷ ((next, more) ∷ bodies)) so_far h small =
    let later = sizes_from m ((next, more) ∷ bodies) ((so_far + bytes) % 65536) h.1 (omega arith) in
    let size : (so_far + bytes) % 65536 + total_bytes ((next, more) ∷ bodies)
        ≡ so_far + total_bytes ((name, bytes) ∷ ((next, more) ∷ bodies)) =
      omega arith in
    let first : minus32 (find_address next m) (find_address name m) ≡ bytes =
      omega (arith, h.0, h.1.0) in
    rw first (
      ap (λ sizes. (name, bytes) ∷ sizes)
        (ap (λ n. calculate_function_sizes m n (map name_of ((next, more) ∷ bodies))) (sym size)
          ∙ later))

-- For functions with distinct names, none of them linked, whose code begins at `base`, behind that of the blocks, and ends
-- before 2^16, `calculateFunctionSizes` gets back the number of bytes of each from the addresses that
-- were written and the size of the bytecode, which ends with the last function.
pub calculate_function_sizes-starts :
    (base : ℕ) (bodies : List (Text × ℕ))
    → IsDistinct bodies
    → base + total_bytes bodies < 65536
    → calculate_function_sizes
        (put_all [] (starts base bodies))
        (base + total_bytes bodies)
        (map name_of bodies)
      ≡ bodies
calculate_function_sizes-starts base bodies h small =
    sizes_from (put_all [] (starts base bodies)) bodies base (put_all-Holds bodies base [] h) small
