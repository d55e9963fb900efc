-- ===== src/Bytecode/Program.antt =====
-- include/viua/program.h, src/programinstructions.cpp and, in the children, src/program.cpp: the program
-- under construction.
pub mod Offset
pub mod Walk
pub mod Insert
pub mod Count
pub mod Lines
pub mod Jumps
pub mod Targets
pub mod Relocation
pub mod Relocated
pub mod Counted
pub mod Assembled
use viuavm.Common.{ℕ, ◌+◌, ◌≡◌, Option, none, some, List, [], ◌∷◌, ◌++◌, length}
use viuavm.Common.Maybe.{◌>>=◌}
use viuavm.Bytecode.Tables.{sizeof_byte, sizeof_bool, sizeof_int}
use viuavm.Bytecode.Cursor.{Cursor}
use viuavm.Bytecode.Instruction.{Instruction, JumpType, emit}

-- `cursor` holds `program`, `bytes` and `addr_ptr`; a saved pointer is its distance from `program`.
pub record Program : Type 0 where
  pub cursor : Cursor
  pub branches : List ℕ
  pub branches_absolute : List ℕ

-- `addr_ptr - program`
abbrev pub position : Program → ℕ
position p = length p.cursor.before

-- `(is_absolute == JMP_ABSOLUTE ? branches_absolute : branches).push_back(at)`, unless the jump is to a
-- byte. The first type says whether to save the pointer, the second says where.
unfoldable pub save : JumpType → JumpType → ℕ → Program → Program
save JumpType.to_byte into at p = p
save _ JumpType.absolute at p = record p { branches_absolute = p.branches_absolute ++ at ∷ [] }
save _ _ at p = record p { branches = p.branches ++ at ∷ [] }

-- What `Program::jump` and `Program::branch` save before they write. For its second target `branch`
-- asks for the type of that target, and then saves by the type of the first.
unfoldable pub save_jumps : Program → Instruction → Program
save_jumps p (Instruction.jump addr kind) = save kind kind (position p + 1) p
save_jumps p (Instruction.branch regc addr_truth kind_truth addr_false kind_false) =
    let truth = position p + sizeof_byte + sizeof_bool + sizeof_int in
    let p' = save kind_truth kind_truth truth p in
    save kind_false kind_truth (truth + sizeof_int) p'
save_jumps p _ = p

-- The methods of `Program` that insert one instruction.
unfoldable pub insert : Program → Instruction → Option Program
insert p i = do c ← emit p.cursor i; some (record (save_jumps p i) { cursor = c })

-- A sequence of such calls.
unfoldable pub insert_all : Program → List Instruction → Option Program
insert_all p [] = some p
insert_all p (i ∷ is) = do p' ← insert p i; insert_all p' is
