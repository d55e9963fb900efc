-- ===== src/Cpu/Soundness/Blocks.antt =====
-- src/cpu/instr/tcmechanism.cpp: the instructions on blocks keep the machine sound.
use viuavm.Common.{ℕ, List, [], ◌∷◌, Text}
use viuavm.Cpu.Machine.{Address, Cause, TryFrame}
use viuavm.Cpu.Blocks.{
  vmtry, linked_block, own_block, find_block, vmcatch, pull, vmenter, vmthrow, leave_block, leave,
}
use viuavm.Cpu.Soundness.{Keeps, Keeps-modify}
use viuavm.Cpu.Soundness.Frames.{frame_rules, Keeps-restore_jump_base}

ruleset block_rules = (frame_rules, Keeps-modify, Keeps-restore_jump_base)

pub Keeps-vmtry : (a : Address) → Keeps (vmtry a)
unfolding vmtry
Keeps-vmtry a = search block_rules depth 8

pub Keeps-linked_block : (name : Text) → Keeps (linked_block name)
unfolding linked_block
Keeps-linked_block name = search block_rules depth 10

pub Keeps-own_block : (b : Address) (a : ℕ) → Keeps (own_block b a)
unfolding own_block
Keeps-own_block b a = search block_rules

pub Keeps-find_block : (name : Text) (c : Cause) → Keeps (find_block name c)
unfolding find_block
Keeps-find_block name c = search (block_rules, Keeps-linked_block, Keeps-own_block) depth 8

pub Keeps-vmcatch : (a : Address) → Keeps (vmcatch a)
unfolding vmcatch
Keeps-vmcatch a = search (block_rules, Keeps-find_block) depth 12

pub Keeps-pull : (a : Address) → Keeps (pull a)
unfolding pull
Keeps-pull a = search block_rules depth 12

pub Keeps-vmenter : (a : Address) → Keeps (vmenter a)
unfolding vmenter
Keeps-vmenter a = search (block_rules, Keeps-find_block) depth 12

pub Keeps-vmthrow : (a : Address) → Keeps (vmthrow a)
unfolding vmthrow
Keeps-vmthrow a = search block_rules depth 14

pub Keeps-leave_block : (frames : List TryFrame) → Keeps (leave_block frames)
unfolding leave_block
Keeps-leave_block [] = search block_rules
Keeps-leave_block (f ∷ rest) = search block_rules

pub Keeps-leave : Keeps leave
unfolding leave
Keeps-leave = search (block_rules, Keeps-leave_block) depth 8
