-- ===== src/Cpu/Frames/Arguments.antt =====
-- src/cpu/instr/calls.cpp: preparing a frame, passing arguments to it, and reading them.
use viuavm.Common.{◌+◌, Bool, false, if◌then◌else◌, Option, none, some, ◌∷◌, ltb}
use viuavm.Common.Throw.{ok}
use viuavm.Cpu.RegisterSet.{
  RegisterSet, Pointer, set as set_in, clear, empty, get, getmask, setmask, isflagged,
  reference_mask, at,
}
use viuavm.Cpu.Machine.{
  Object, Exec, Cause, Word, Address, ◌>>=◌, ◌>>◌, pure, read, modify, require, deref,
}
use viuavm.Cpu.Machine.Objects.{
  registers, lift, on_registers, set_register, is_reference, perform, fetch, copy_object,
  new_object,
}
use viuavm.Cpu.Machine.Operands.{operand, resolve}
use viuavm.Cpu.Frames.{request_new_frame, frames_back}

-- `CPU::frame`
unfoldable pub frame : Address → Exec Address
frame addr = do
  first ← operand addr
  second ← operand (addr + 5)
  arguments ← resolve first
  local_registers ← resolve second
  request_new_frame arguments local_registers
  pure (addr + 10)

-- `frame_new->args = args`
unfoldable pub with_args : RegisterSet → Exec (Unit {0})
with_args args = do
  s ← read
  f ← deref s.frame_new
  modify λ t. record t { frame_new = some (record f { args = args }) }

-- `frame_new->args->set(index, object)`
unfoldable pub set_argument : Word → Option Pointer → Exec (Unit {0})
set_argument index object = do
  s ← read
  f ← deref s.frame_new
  (args, effects) ← lift (set_in (is_reference s) f.args index object)
  with_args args
  perform effects

-- Is there an argument register of this index in the new frame?
unfoldable pub check_parameter : Word → Exec (Unit {0})
check_parameter index = do
  s ← read
  f ← deref s.frame_new
  require (ltb index f.args.registerset_size) Cause.parameter_out_of_bounds

-- `CPU::param`
unfoldable pub param : Address → Exec Address
param addr = do
  first ← operand addr
  second ← operand (addr + 5)
  parameter_no ← resolve first
  object_index ← resolve second
  check_parameter parameter_no
  object ← fetch object_index
  set_argument parameter_no object
  s ← read
  f ← deref s.frame_new
  cleared ← lift (clear f.args parameter_no)
  with_args cleared
  pure (addr + 10)

-- `new Reference(object)`, with a cell of its own.
unfoldable pub new_reference : Option Pointer → Exec Pointer
new_reference object s = ok (
  s.next + 1,
  record s {
    cells = (s.next, object) ∷ s.cells;
    objects = (s.next + 1, Object.reference s.next) ∷ s.objects;
    next = s.next + 2;
  },
)

-- The object in a register is put behind a reference, which takes its place.
unfoldable pub wrap_in_reference : Word → Option Pointer → Exec Pointer
wrap_in_reference index object = do
  rf ← new_reference object
  on_registers (λ rs. empty rs index)
  set_register index (some rf)
  pure rf

-- `dynamic_cast<Reference*>(object)`, of a pointer that may be null.
unfoldable pub as_reference : Option Pointer → Exec Bool
as_reference none = pure false
as_reference (some p) = do s ← read; pure (is_reference s p)

-- `CPU::paref`
unfoldable pub paref : Address → Exec Address
paref addr = do
  first ← operand addr
  second ← operand (addr + 5)
  parameter_no ← resolve first
  object_index ← resolve second
  check_parameter parameter_no
  rs ← registers
  object ← lift (at rs object_index)
  is_ref ← as_reference object
  rf ← if is_ref then deref object else wrap_in_reference object_index object
  set_argument parameter_no (some rf)
  pure (addr + 10)

-- The argument, or a copy of it unless it is marked as a reference.
unfoldable pub argument_in : RegisterSet → Word → Exec Pointer
argument_in args index = do
  flagged ← lift (isflagged args index reference_mask)
  p ← lift (get args index)
  if flagged then pure p else copy_object p

-- `CPU::arg`
unfoldable pub arg : Address → Exec Address
arg addr = do
  first ← operand addr
  second ← operand (addr + 5)
  parameter_no ← resolve second
  destination ← resolve first
  top ← frames_back
  require (ltb parameter_no top.args.registerset_size) Cause.argument_out_of_bounds
  object ← argument_in top.args parameter_no
  set_register destination (some object)
  mask ← lift (getmask top.args parameter_no)
  on_registers (λ rs. setmask rs destination mask)
  pure (addr + 10)

-- `CPU::argc`
unfoldable pub argc : Address → Exec Address
argc addr = do
  first ← operand addr
  destination ← resolve first
  top ← frames_back
  p ← new_object (Object.integer top.args.registerset_size)
  set_register destination (some p)
  pure (addr + 5)
