-- ===== src/Tests/Loader.antt =====
-- A table of two functions, written and read.
use viuavm.Loader.{calculate_function_sizes}
use viuavm.Loader.Sizes.{calculate_function_sizes-starts, IsDistinct}
use viuavm.Common.{◌<◌, length, ◌=ᵗ◌, refl, arith, ℕ, map, Text, ◌≡◌, List, [], ◌∷◌, some, codes}
use viuavm.Loader.{load_map, write_table, ids_section_size, address_bytes}
use viuavm.Loader.RoundTrip.{load_map-write_table, name_of, put_all, starts}

abbrev bodies : List (Text × ℕ)
bodies = (codes "main", 300) ∷ (codes "f", 20) ∷ []

table_small : length (write_table 0 bodies) < 65536
unfolding write_table address_bytes
table_small = omega arith

load_map-write_table_example :
    load_map (write_table 0 bodies) (ids_section_size (map name_of bodies))
    ≡ some (map name_of bodies, put_all [] (starts 0 bodies))
load_map-write_table_example = load_map-write_table bodies (omega arith) table_small

bodies-IsDistinct : IsDistinct bodies
unfolding ◌=ᵗ◌
bodies-IsDistinct = ((refl, tt), (tt, tt))

calculate_function_sizes-starts_example :
    calculate_function_sizes (put_all [] (starts 40 bodies)) 360 (map name_of bodies) ≡ bodies
calculate_function_sizes-starts_example =
    calculate_function_sizes-starts 40 bodies bodies-IsDistinct (omega arith)
