-- ===== src/Cpu/Machine/Operands.antt =====
-- src/cpu/instr: how a handler reads its operands, and resolves those that are given by a register.
use viuavm.Common.{
  zero, suc, length, ℕ, ◌+◌, ◌*◌, ◌==◌, Bool, true, false, not, Option, none, some, [], ◌∷◌, Text,
}
use viuavm.Cpu.Machine.{deref, Address, Exec, Word, ◌>>=◌, pure, read}
use viuavm.Cpu.Machine.Objects.{fetch_integer}

-- `*((bool*)addr)` and `*((int*)addr)`, little-endian.
unfoldable pub read_bool : (Address → ℕ) → Address → Bool
read_bool memory addr = not (memory addr == 0)

unfoldable pub read_int : (Address → ℕ) → Address → Word
read_int memory addr =
    memory addr + memory (addr + 1) * 256 + memory (addr + 2) * 65536 + memory (addr + 3) * 16777216

-- An operand: whether it is a reference, and its number.
abbrev pub Operand : Type 0
Operand = Bool × Word

-- The operand at `addr`, which takes five bytes.
unfoldable pub operand : Address → Exec Operand
operand addr = do s ← read; pure (read_bool s.memory addr, read_int s.memory (addr + 1))

-- `if (ref) { num = static_cast<Integer*>(fetch(num))->value(); }`
unfoldable pub resolve : Operand → Exec Word
resolve (true, num) = fetch_integer num
resolve (false, num) = pure num

-- The bytes from `addr` up to a NUL, within a number of bytes.
unfoldable pub c_string : (Address → ℕ) → ℕ → Address → Option Text
c_string memory zero addr = none
c_string memory (suc rounds) addr = elim (memory addr == 0) [
  | true ↦ some []
  | false ↦ elim (c_string memory rounds (addr + 1)) [
    | none ↦ none
    | some t ↦ some (memory addr ∷ t)
  ]
]

-- A module's code is shorter than 2 ^ 16 bytes, as its size is a `uint16_t`.
unfoldable pub longest_string : ℕ
longest_string = 65536

-- `string(addr)`, which without a NUL reads past the code.
unfoldable pub text_at : Address → Exec Text
text_at addr = do s ← read; deref (c_string s.memory longest_string addr)

-- The address after a string and its NUL.
abbrev pub after_text : Address → Text → Address
after_text addr t = addr + length t + 1

-- Three operands in a row, and the addresses of the second and the third.
abbrev pub after_operand : Address → Address
after_operand addr = addr + 5
