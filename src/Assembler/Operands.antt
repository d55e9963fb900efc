-- ===== src/Assembler/Operands.antt =====
-- src/cg/assembler/operands.cpp: operands as they are written in a line of code.
pub mod Decimal
use viuavm.Common.{
  ℕ, ◌+◌, ◌-◌, ◌*◌, ◌%◌, Bool, true, false, ◌&&◌, ◌||◌, [], ◌∷◌, ◌==◌, ltb, leb, if◌then◌else◌,
  length, Text,
}
use viuavm.Common.Throw.{Result, ok, err, ◌>>=◌}
use viuavm.Text.{chunk, sub, End, is_digit}
use viuavm.Bytecode.Encode.{IntOp, ByteOp}
use viuavm.Bytecode.Program.Count.{without_chunk}

pub data NumberError : Type 0 where
  invalid_argument out_of_range : NumberError

-- `isspace`, which `std::stoi` skips.
abbrev pub is_blank : ℕ → Bool
is_blank c = c == 32 || leb 9 c && leb c 13

unfoldable pub skip_blanks : Text → Text
skip_blanks [] = []
skip_blanks (c ∷ s) = if is_blank c then skip_blanks s else c ∷ s

-- The leading digits, behind digits of the value `n`.
unfoldable pub decimal_from : ℕ → Text → ℕ
decimal_from n [] = n
decimal_from n (c ∷ s) = if is_digit c then decimal_from (n * 10 + (c - 48)) s else n

abbrev pub starts_with_digit : Text → Bool
starts_with_digit [] = false
starts_with_digit (c ∷ s) = is_digit c

-- `int` has the values from -2^31 to 2^31 - 1; a negative one is given by its pattern.
abbrev pub as_positive : ℕ → Result NumberError ℕ
as_positive n = if ltb n 2147483648 then ok n else err out_of_range

abbrev pub as_negative : ℕ → Result NumberError ℕ
as_negative n = if leb n 2147483648 then ok ((4294967296 - n) % 4294967296) else err out_of_range

abbrev pub with_digits : (ℕ → Result NumberError ℕ) → Text → Result NumberError ℕ
with_digits sign s = if starts_with_digit s then sign (decimal_from 0 s) else err invalid_argument

abbrev pub signed_number : Text → Result NumberError ℕ
signed_number [] = err invalid_argument
signed_number (c ∷ s) =
    if c == 45
    then with_digits as_negative s
    else if c == 43
    then with_digits as_positive s
    else with_digits as_positive (c ∷ s)

-- `std::stoi`: white space, a sign, and digits up to the first character that is none.
unfoldable pub stoi : Text → Result NumberError ℕ
stoi s = signed_number (skip_blanks s)

-- `s[0] == '@'`; `s[0]` of an empty text is a NUL.
abbrev pub is_reference : Text → Bool
is_reference [] = false
is_reference (c ∷ s) = c == 64

abbrev pub without_sign : Text → Text
without_sign s = if is_reference s then sub s 1 (End.from_end 0) else s

unfoldable pub get_int : Text → Result NumberError IntOp
get_int s = stoi (without_sign s) >>= λ n. ok (is_reference s, n)

-- `(char)stoi(…)` keeps the lowest byte.
unfoldable pub get_byte : Text → Result NumberError ByteOp
get_byte s = stoi (without_sign s) >>= λ n. ok (is_reference s, n % 256)

-- `std::stof` is a parameter.
unfoldable pub get_float :
    {F : Type 0} → (Text → Result NumberError F) → Text → Result NumberError (Bool × F)
get_float stof s = stof (without_sign s) >>= λ x. ok (is_reference s, x)

unfoldable pub get2 : Text → Text × Text
get2 s = let op_a = chunk s true in (op_a, chunk (sub s (length op_a) (End.from_end 0)) true)

-- `lstrip(sub(s, op.size()))` is `without_chunk`.
unfoldable pub get3 : Text → Bool → Text × Text × Text
get3 s fill_third =
    let op_a = chunk s true in
    let behind_a = without_chunk s in
    let behind_b = without_chunk behind_a in
    (
      op_a,
      chunk behind_a true,
      if length behind_b == 0 && fill_third then op_a else chunk behind_b true,
    )
