-- ===== src/Assembler/Generate.antt =====
-- src/front/asm/generate.cpp: from a line of code to the call of a method of `Program`. The operands of a
-- call are read from left to right, which the source leaves open.
pub mod Filter
pub mod Handlers
pub mod Lines
pub mod Source
pub mod Handled
pub mod Jumps
pub mod Compiled
pub mod Whole
pub mod Written
use viuavm.Common.{
  ℕ, ◌+◌, ◌*◌, ◌-◌, ◌%◌, Bool, true, false, not, ◌&&◌, ◌||◌, Option, none, some, List, [], ◌∷◌,
  ◌++◌, ◌==◌, ltb, leb, if◌then◌else◌, Text, codes, ◌=ᵗ◌, take, length,
}
use viuavm.Common.Throw.{Result, ok, err, ◌>>=◌}
use viuavm.Text.{startswith, lstrip, chunk, sub, End, is_digit, isnum}
use viuavm.Bytecode.Encode.{IntOp, Word}
use viuavm.Bytecode.Instruction.{JumpType}
use viuavm.Assembler.Operands.{NumberError, stoi, is_reference, without_sign, get_int, get3}
use viuavm.Assembler.Operands.Decimal.{signed_decimal}

-- The messages that are thrown, the exceptions of `stoi`, and the call of `exit`.
pub data GenerateError : Type 0 where
  undeclared_name not_enough_operands invalid_relative_jump unrecognised_marker
        instruction_not_present unimplemented_instruction :
      GenerateError
  of_number : NumberError → GenerateError
  exits : GenerateError

abbrev pub numeric {ℓ} : {A : Type ℓ} → Result NumberError A → Result GenerateError A
numeric (ok a) = ok a
numeric (err e) = err (of_number e)

-- `map::at`
unfoldable pub at : List (Text × ℕ) → Text → Option ℕ
at [] name = none
at ((key, value) ∷ entries) name = if key =ᵗ name then some value else at entries name

-- `out << names.at(reg)` behind the sign of a reference, which `prefix` is.
abbrev pub named_register : Text → Option ℕ → Text → Result GenerateError Text
named_register prefix (some index) reg = ok (prefix ++ signed_decimal index)
named_register prefix none [] = err not_enough_operands
named_register prefix none (c ∷ reg) = err undeclared_name

unfoldable pub resolve_register : Text → List (Text × ℕ) → Result GenerateError Text
resolve_register reg names =
    let bare = without_sign reg in
    if isnum reg true
    then ok reg
    else if is_reference reg && isnum (sub reg 1 (End.from_end 0)) true
    then ok reg
    else named_register (if is_reference reg then codes "@" else []) (at names bare) bare

-- `ss << hex << jmp; ss >> addr`: the hexadecimal digits behind "0x", and the greatest `int` for a number
-- that is too great.
abbrev pub is_hex : ℕ → Bool
is_hex c = is_digit c || (leb 97 c && leb c 102) || (leb 65 c && leb c 70)

abbrev pub hex_digit : ℕ → ℕ
hex_digit c = if is_digit c then c - 48 else if leb 97 c then c - 87 else c - 55

unfoldable pub hex_from : ℕ → Text → ℕ
hex_from n [] = n
hex_from n (c ∷ s) = if is_hex c then hex_from (n * 16 + hex_digit c) s else n

abbrev pub saturated : ℕ → ℕ
saturated n = if ltb n 2147483648 then n else 2147483647

abbrev pub first_is : ℕ → Text → Bool
first_is c [] = false
first_is c (d ∷ s) = d == c

-- The address and the type of a jump.
abbrev pub Target : Type 0
Target = Word × JumpType

abbrev pub jump_to : JumpType → Word → Result GenerateError Target
jump_to kind addr = ok (addr, kind)

abbrev pub not_negative : Word → Result GenerateError Target
not_negative addr =
    if ltb addr 2147483648 then ok (addr, JumpType.relative) else err invalid_relative_jump

abbrev pub at_marker : Option ℕ → Result GenerateError Target
at_marker (some addr) = ok (addr, JumpType.relative)
at_marker none = err unrecognised_marker

-- `resolvejump` with an `instruction_index`, as it is called.
unfoldable pub resolve_jump : Text → List (Text × ℕ) → ℕ → Result GenerateError Target
resolve_jump jmp marks instruction_index =
    let later = sub jmp 1 (End.from_end 0) in
    if isnum jmp false
    then numeric (stoi jmp) >>= jump_to JumpType.relative
    else if first_is 46 jmp && isnum later true
    then numeric (stoi later) >>= jump_to JumpType.absolute
    else if take 2 jmp =ᵗ codes "0x"
    then ok (saturated (hex_from 0 (sub jmp 2 (End.from_end 0))), JumpType.to_byte)
    else if first_is 45 jmp
    then numeric (stoi jmp) >>= (λ n. not_negative ((instruction_index + n) % 4294967296))
    else if first_is 43 jmp
    then numeric (stoi later)
      >>= (λ n. jump_to JumpType.relative ((instruction_index + n) % 4294967296))
    else if first_is 46 jmp
    then err exits
    else at_marker (at marks jmp)

-- `getint(resolveregister(…))`
abbrev pub register : List (Text × ℕ) → Text → Result GenerateError IntOp
register names reg = resolve_register reg names >>= λ s. numeric (get_int s)

-- The handler of `out_of_range` in `assemble_three_intop_instruction` is there for the lookup of the
-- instruction, but also gets the exceptions of `stoi`.
abbrev pub caught {ℓ} : {A : Type ℓ} → Result NumberError A → Result GenerateError A
caught (ok a) = ok a
caught (err NumberError.invalid_argument) = err (of_number NumberError.invalid_argument)
caught (err NumberError.out_of_range) = err instruction_not_present

abbrev pub three_registers :
    List (Text × ℕ) → Text × Text × Text → Result GenerateError (IntOp × IntOp × IntOp)
three_registers names (rega, regb, regr) = resolve_register rega names >>= λ a.
    resolve_register regb names >>= λ b. resolve_register regr names >>= λ r.
    caught (get_int a) >>= λ a'.
    caught (get_int b) >>= λ b'. caught (get_int r) >>= λ r'. ok (a', b', r')

abbrev pub is_any_directive : List Text → Text → Bool
is_any_directive [] line = false
is_any_directive (d ∷ ds) line = startswith line d || is_any_directive ds line

abbrev pub dropped_directives : List Text
dropped_directives =
    codes ".mark:"
    ∷ codes ".name:"
    ∷ codes ".main:"
    ∷ codes ".link:"
    ∷ codes ".signature:"
    ∷ codes ".bsignature:"
    ∷ codes ".type:"
    ∷ []

abbrev pub definitions : List Text
definitions = codes ".function:" ∷ codes ".block:" ∷ codes ".class:" ∷ []
