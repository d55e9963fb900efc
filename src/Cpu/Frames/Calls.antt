-- ===== src/Cpu/Frames/Calls.antt =====
-- src/cpu/cpu.cpp and src/cpu/instr/calls.cpp: calling a function.
use viuavm.Common.{◌+◌, ◌||◌, Bool, if◌then◌else◌, Option, some, [], length, Text}
use viuavm.Cpu.Machine.{
  Exec, Cause, Word, Address, ◌>>=◌, ◌>>◌, pure, raise, read, modify, require, at_key, lookup,
  is_some,
}
use viuavm.Cpu.Machine.Operands.{operand, text_at}
use viuavm.Cpu.Frames.{maybe, push_frame, return_value}

-- `addr`, past the name that the instruction carries.
unfoldable pub after_name : Address → Text → Text → Address
after_name addr call_name [] = addr + (length call_name + 1)
after_name addr call_name real_call_name = addr + (length real_call_name + 1)

-- The new frame is given its function, the address to return to, and where to place the result.
unfoldable pub prepare_frame : Text → Address → Bool → Word → Exec (Unit {0})
prepare_frame call_name return_address return_ref return_index = do
  s ← read
  maybe s.frame_new (raise Cause.call_without_frame) λ f. modify λ t. record t {
    frame_new = some (record f {
      function_name = call_name;
      return_address = return_address;
      resolve_return_value_register = return_ref;
      place_return_value_in = return_index;
    });
  }

unfoldable pub linked_target : Text → Exec (Address × Address)
linked_target call_name = do
  s ← read
  linked ← at_key (lookup call_name s.linked_functions)
  entry ← at_key (lookup linked.0 s.linked_modules)
  pure (linked.1, entry.1)

-- Where the function's code is, and what its jumps are counted from.
unfoldable pub call_target : Text → Exec (Address × Address)
call_target call_name = do
  s ← read
  maybe (lookup call_name s.function_addresses) (linked_target call_name)
      λ a. pure (s.bytecode + a, s.bytecode)

-- `CPU::callNative`
unfoldable pub call_native : Address → Text → Bool → Word → Text → Exec Address
call_native addr call_name return_ref return_index real_call_name = do
  target ← call_target call_name
  modify (λ t. record t { jump_base = target.1 })
  prepare_frame call_name (after_name addr call_name real_call_name) return_ref return_index
  push_frame
  pure target.0

-- The functions of extension libraries, by what calling one does to the machine.
module _ (foreign_functions : Text → Option (Exec (Unit {0}))) where
  -- `CPU::callForeign`
  unfoldable pub call_foreign : Address → Text → Bool → Word → Text → Exec Address
  call_foreign addr call_name return_ref return_index real_call_name = do
    let return_address = after_name addr call_name real_call_name
    prepare_frame call_name return_address return_ref return_index
    push_frame
    maybe (foreign_functions call_name) (raise Cause.unregistered_function) λ callback. callback
    return_value
    pure return_address

  -- `CPU::call`
  unfoldable pub call : Address → Exec Address
  call addr = do
    return_register ← operand addr
    call_name ← text_at (addr + 5)
    s ← read
    let is_native =
        is_some (lookup call_name s.function_addresses)
        || is_some (lookup call_name s.linked_functions)
    require (is_native || is_some (foreign_functions call_name)) Cause.undefined_function
    if is_native
        then call_native (addr + 5) call_name return_register.0 return_register.1 []
        else call_foreign (addr + 5) call_name return_register.0 return_register.1 []
