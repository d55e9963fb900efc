-- ===== src/Cpu/Blocks.antt =====
-- src/cpu/instr/tcmechanism.cpp: the instructions that set up, enter and leave guarded blocks, and
-- that throw and pull objects.
use viuavm.Common.{ℕ, ◌+◌, ◌||◌, not, none, some, List, [], ◌∷◌, length, ltb, Text}
use viuavm.Cpu.RegisterSet.{setmask, keep_mask, at, get}
use viuavm.Cpu.Machine.{
  is_empty, maybe, stop, TryFrame, Catcher, Exec, Stop, Cause, Address, ◌>>=◌, ◌>>◌, pure, read,
  modify, require, deref, at_key, lookup, is_some,
}
use viuavm.Cpu.Machine.Objects.{registers, lift, on_registers, set_register}
use viuavm.Cpu.Machine.Operands.{operand, resolve, text_at, after_text}
use viuavm.Cpu.Frames.{frames_back, restore_jump_base}

-- `CPU::vmtry`
unfoldable pub vmtry : Address → Exec Address
vmtry addr = do
  s ← read
  require (not (is_some s.try_frame_new)) Cause.block_frame_unused
  modify (λ t. record t {
    try_frame_new = some (record {
      try_return_address = 0;
      associated_frame = none;
      block_name = [];
      catchers = [];
    });
  })
  pure addr

unfoldable pub linked_block : Text → Exec Address
linked_block name = do
  s ← read
  linked ← at_key (lookup name s.linked_blocks)
  entry ← at_key (lookup linked.0 s.linked_modules)
  modify (λ t. record t { jump_base = entry.1 })
  pure linked.1

unfoldable pub own_block : Address → ℕ → Exec Address
own_block bytecode a = do modify (λ t. record t { jump_base = bytecode }); pure (bytecode + a)

-- The address of a block, which also becomes the code that jumps are counted from.
unfoldable pub find_block : Text → Cause → Exec Address
find_block name missing = do
  s ← read
  require (is_some (lookup name s.block_addresses) || is_some (lookup name s.linked_blocks)) missing
  maybe (lookup name s.block_addresses) (linked_block name) (own_block s.bytecode)

-- `CPU::vmcatch`
unfoldable pub vmcatch : Address → Exec Address
vmcatch addr = do
  type_name ← text_at addr
  catcher_block_name ← text_at (after_text addr type_name)
  target ← find_block catcher_block_name Cause.undefined_handler
  s ← read
  f ← deref s.try_frame_new
  let catcher : Catcher = record {
    caught_type = type_name;
    catcher_name = catcher_block_name;
    block_address = target;
  }
  modify (λ t. record t {
    try_frame_new = some (record f { catchers = (type_name, catcher) ∷ f.catchers });
  })
  pure (after_text (after_text addr type_name) catcher_block_name)

-- `CPU::pull`
unfoldable pub pull : Address → Exec Address
pull addr = do
  first ← operand addr
  destination ← resolve first
  s ← read
  require (is_some s.caught) Cause.nothing_caught
  set_register destination s.caught
  modify (λ t. record t { caught = none })
  pure (addr + 5)

-- `CPU::vmenter`: the block returns to the NUL after its name, which is the opcode `nop`.
unfoldable pub vmenter : Address → Exec Address
vmenter addr = do
  name ← text_at addr
  target ← find_block name Cause.undefined_block
  s ← read
  f ← deref s.try_frame_new
  top ← frames_back
  let entered : TryFrame = record f {
    try_return_address = addr + length name;
    associated_frame = some top.this;
    block_name = name;
  }
  modify (λ t. record t { tryframes = entered ∷ t.tryframes; try_frame_new = none })
  pure target

-- `CPU::vmthrow`
unfoldable pub vmthrow : Address → Exec Address
vmthrow addr = do
  first ← operand addr
  source ← resolve first
  rs ← registers
  require (ltb source rs.registerset_size) Cause.throw_out_of_bounds
  p ← lift (at rs source)
  require (is_some p) Cause.throw_empty
  on_registers (λ rs'. setmask rs' source keep_mask)
  kept ← registers
  object ← lift (get kept source)
  modify (λ t. record t { thrown = some object })
  pure (addr + 5)

unfoldable pub leave_block : List TryFrame → Exec Address
leave_block [] = stop Stop.undefined
leave_block (f ∷ rest) = do
  modify (λ t. record t { tryframes = rest })
  restore_jump_base
  pure f.try_return_address

-- `CPU::leave`
unfoldable pub leave : Exec Address
leave = do s ← read; require (not (is_empty s.tryframes)) Cause.bad_leave; leave_block s.tryframes
