-- ===== src/Loader.antt =====
-- src/loader.cpp: `Loader::loadmap`, which reads a table of names and addresses, and
-- `Loader::calculateFunctionSizes`; and the loop of
-- `generate` in src/front/asm/generate.cpp that writes the table of the blocks.
pub mod RoundTrip
pub mod Sizes
use viuavm.Common.{
  ◌-◌, ◌*◌, ◌/◌, length, drop, ◌+◌, ◌==◌, ◌++◌, ◌%◌, Option, ℕ, Text, List, [], ◌∷◌, none, some,
  zero, suc, codes, ◌=ᵗ◌, if◌then◌else◌,
}
use viuavm.Common.Maybe.{◌>>=◌}

-- map<string, uint16_t>, as an association list.
abbrev pub Mapping : Type 0
Mapping = List (Text × ℕ)

-- `mapping[name] = address`
unfoldable pub put : Text → ℕ → Mapping → Mapping
put name address [] = (name, address) ∷ []
put name address ((key, old) ∷ mapping) =
    let rest = put name address mapping in
    if key =ᵗ name then (key, address) ∷ mapping else (key, old) ∷ rest

-- `string(lib_function_ids_map)`: the characters up to a NUL; without one the read leaves the array.
unfoldable pub name_at : List ℕ → Option Text
name_at [] = none
name_at (c ∷ dump) = if c == 0 then some [] else (name_at dump >>= λ name. some (c ∷ name))

-- `*((uint16_t*)(bytedump+i))`, and what is behind it.
unfoldable pub address_at : List ℕ → Option (ℕ × List ℕ)
address_at (a ∷ (b ∷ dump)) = some (a + 256 * b, dump)
address_at _ = none

-- `while (i < bytedump_size)`, on what is left of the array from `i` on, of which `left` bytes are before
-- `bytedump_size`, with fuel.
unfoldable pub load_loop : ℕ → ℕ → List ℕ → List Text → Mapping → Option (List Text × Mapping)
load_loop fuel zero dump order mapping = some (order, mapping)
load_loop zero (suc left) dump order mapping = none
load_loop (suc fuel) (suc left) dump order mapping = do
  name ← name_at dump
  (address, rest) ← address_at (drop (length name + 1) dump)
  load_loop fuel (suc left - (length name + 3)) rest (order ++ name ∷ []) (put name address mapping)

-- `bytedump_size` is a `uint16_t`.
unfoldable pub load_map : List ℕ → ℕ → Option (List Text × Mapping)
load_map dump bytedump_size = load_loop (length dump) (bytedump_size % 65536) dump [] []

-- A `uint16_t`, lowest byte first.
unfoldable pub address_bytes : ℕ → List ℕ
address_bytes n = n % 256 ∷ n / 256 % 256 ∷ []

-- A `uint16_t` that is increased by `size`.
abbrev pub increased : ℕ → ℕ → ℕ
increased n size = (n + size) % 65536

-- `block_ids_section_size`: the names, then an address and a NUL for each.
unfoldable pub names_size : ℕ → List Text → ℕ
names_size n [] = n
names_size n (name ∷ names) = names_size (increased n (length name)) names

unfoldable pub ids_section_size : List Text → ℕ
ids_section_size names =
    increased (increased (names_size 0 names) (2 * length names)) (length names)

-- The loop that writes the names with the addresses: each body has its number of bytes.
unfoldable pub write_table : ℕ → List (Text × ℕ) → List ℕ
write_table so_far [] = []
write_table so_far ((name, bytes) ∷ bodies) =
    name ++ 0 ∷ (address_bytes so_far ++ write_table ((so_far + bytes) % 65536) bodies)

-- `function_addresses[name]`: a key that is missing has the value 0.
unfoldable pub find_address : Text → Mapping → ℕ
find_address name [] = 0
find_address name ((key, address) ∷ mapping) =
    let rest = find_address name mapping in if key =ᵗ name then address else rest

-- `b-a` of two 16-bit values, on unsigned long, stored as an unsigned.
unfoldable pub minus32 : ℕ → ℕ → ℕ
minus32 b a = (b + 4294967296 - a) % 4294967296

-- The loop of `calculateFunctionSizes` over the functions that are left; `size` is that of the bytecode.
-- The sizes are listed with their names, in the order in which they are stored.
unfoldable pub calculate_function_sizes : Mapping → ℕ → List Text → List (Text × ℕ)
calculate_function_sizes addresses size [] = []
calculate_function_sizes addresses size (name ∷ []) =
    (name, minus32 size (find_address name addresses)) ∷ []
calculate_function_sizes addresses size (name ∷ (next ∷ functions)) =
    (name, minus32 (find_address next addresses) (find_address name addresses))
    ∷ calculate_function_sizes addresses size (next ∷ functions)
