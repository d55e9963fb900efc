-- ===== src/Tests/Jumps.antt =====
-- `calculateJumps` at concrete instructions.
use viuavm.Common.{refl, ◌≡◌, arith, false, replicate, map, All, List, [], ◌∷◌, some}
use viuavm.Common.Throw.{ok}
use viuavm.Bytecode.Instruction.{Instruction, JumpType}
use viuavm.Bytecode.Instruction.Layout.{opcode, names, name_bytes, IsEncodable}
use viuavm.Bytecode.Tables.{op_size}
use viuavm.Bytecode.Program.{Program, insert_all}
use viuavm.Bytecode.Program.Walk.{code_of}
use viuavm.Bytecode.Program.Insert.{fresh}
use viuavm.Bytecode.Program.Jumps.{calculate_jumps}
use viuavm.Bytecode.Program.Relocation.{HasTargets, relocated, with_offset}
use viuavm.Bytecode.Program.Relocated.{calculate_jumps-insert_all}

-- A loop: `branch` leaves it by index 3, and `jump` goes back to index 0.
abbrev loop : List Instruction
loop =
    Instruction.izero (false, 1)
    ∷ Instruction.branch (false, 1) 3 JumpType.relative 2 JumpType.relative
    ∷ Instruction.jump 0 JumpType.relative
    ∷ Instruction.end
    ∷ []

loop-IsEncodable : All IsEncodable loop
unfolding names
loop-IsEncodable = omega arith

loop-HasTargets : All (HasTargets 4) loop
loop-HasTargets = omega arith

-- The targets, as bytes behind offset 100.
relocated-loop :
    map (relocated 100 loop) loop
    ≡ Instruction.izero (false, 1)
      ∷ Instruction.branch (false, 1) 125 JumpType.relative 120 JumpType.relative
      ∷ Instruction.jump 100 JumpType.relative
      ∷ Instruction.end
      ∷ []
unfolding op_size opcode name_bytes names
relocated-loop = refl

calculate_jumps-insert_all_example :
    (q : Program) × (insert_all (fresh (replicate 26 0)) loop ≡ some q)
    × (calculate_jumps q.cursor.before (with_offset 100 q.branches)
        ≡ ok (code_of (map (relocated 100 loop) loop)))
unfolding op_size opcode name_bytes names
calculate_jumps-insert_all_example =
    calculate_jumps-insert_all 100 loop (replicate 26 0) (omega arith) loop-IsEncodable
      loop-HasTargets (omega arith) (omega arith)
