-- ===== src/Bytecode/Encode/Control.antt =====
-- src/cg/bytecode/instructions.cpp: output, closures, calls, jumps, blocks, modules and prototypes.
use viuavm.Common.{Option, Text}
use viuavm.Common.Maybe.{◌>>=◌}
use viuavm.Bytecode.Opcode.{Opcode, to_byte}
use viuavm.Bytecode.Cursor.{Cursor, put, put_int}
use viuavm.Bytecode.Encode.{
  Word, IntOp, insert_integer_operand, insert_two_integer_ops_instruction, put_c_string,
  put_unquoted,
}

unfoldable pub print : Cursor → IntOp → Option Cursor
print addr_ptr reg = do p ← put addr_ptr (to_byte Opcode.print); insert_integer_operand p reg

unfoldable pub echo : Cursor → IntOp → Option Cursor
echo addr_ptr reg = do p ← put addr_ptr (to_byte Opcode.echo); insert_integer_operand p reg

unfoldable pub clbind : Cursor → IntOp → Option Cursor
clbind addr_ptr reg = do p ← put addr_ptr (to_byte Opcode.clbind); insert_integer_operand p reg

unfoldable pub closure : Cursor → IntOp → Text → Option Cursor
closure addr_ptr reg fn = do
  p ← put addr_ptr (to_byte Opcode.closure)
  p₁ ← insert_integer_operand p reg
  put_c_string p₁ fn

unfoldable pub function : Cursor → IntOp → Text → Option Cursor
function addr_ptr reg fn = do
  p ← put addr_ptr (to_byte Opcode.function)
  p₁ ← insert_integer_operand p reg
  put_c_string p₁ fn

unfoldable pub fcall : Cursor → IntOp → IntOp → Option Cursor
fcall addr_ptr clsr ret = insert_two_integer_ops_instruction addr_ptr Opcode.fcall clsr ret

unfoldable pub frame : Cursor → IntOp → IntOp → Option Cursor
frame addr_ptr a b = insert_two_integer_ops_instruction addr_ptr Opcode.frame a b

unfoldable pub param : Cursor → IntOp → IntOp → Option Cursor
param addr_ptr a b = insert_two_integer_ops_instruction addr_ptr Opcode.param a b

unfoldable pub paref : Cursor → IntOp → IntOp → Option Cursor
paref addr_ptr a b = insert_two_integer_ops_instruction addr_ptr Opcode.paref a b

unfoldable pub arg : Cursor → IntOp → IntOp → Option Cursor
arg addr_ptr a b = insert_two_integer_ops_instruction addr_ptr Opcode.arg a b

unfoldable pub argc : Cursor → IntOp → Option Cursor
argc addr_ptr a = do p ← put addr_ptr (to_byte Opcode.argc); insert_integer_operand p a

unfoldable pub call : Cursor → IntOp → Text → Option Cursor
call addr_ptr reg fn_name = do
  p ← put addr_ptr (to_byte Opcode.call)
  p₁ ← insert_integer_operand p reg
  put_c_string p₁ fn_name

unfoldable pub jump : Cursor → Word → Option Cursor
jump addr_ptr addr = do p ← put addr_ptr (to_byte Opcode.jump); put_int p addr

unfoldable pub branch : Cursor → IntOp → Word → Word → Option Cursor
branch addr_ptr regc addr_truth addr_false = do
  p ← put addr_ptr (to_byte Opcode.branch)
  p₁ ← insert_integer_operand p regc
  p₂ ← put_int p₁ addr_truth
  put_int p₂ addr_false

unfoldable pub vmtry : Cursor → Option Cursor
vmtry addr_ptr = put addr_ptr (to_byte Opcode.try)

unfoldable pub vmcatch : Cursor → Text → Text → Option Cursor
vmcatch addr_ptr type_name block_name = do
  p ← put addr_ptr (to_byte Opcode.catch)
  p₁ ← put_unquoted p type_name
  put_c_string p₁ block_name

unfoldable pub pull : Cursor → IntOp → Option Cursor
pull addr_ptr regno = do p ← put addr_ptr (to_byte Opcode.pull); insert_integer_operand p regno

unfoldable pub vmenter : Cursor → Text → Option Cursor
vmenter addr_ptr block_name = do p ← put addr_ptr (to_byte Opcode.enter); put_c_string p block_name

unfoldable pub vmthrow : Cursor → IntOp → Option Cursor
vmthrow addr_ptr regno = do p ← put addr_ptr (to_byte Opcode.throw); insert_integer_operand p regno

unfoldable pub leave : Cursor → Option Cursor
leave addr_ptr = put addr_ptr (to_byte Opcode.leave)

unfoldable pub import : Cursor → Text → Option Cursor
import addr_ptr module_name = do
  p ← put addr_ptr (to_byte Opcode.import)
  put_unquoted p module_name

unfoldable pub link : Cursor → Text → Option Cursor
link addr_ptr module_name = do p ← put addr_ptr (to_byte Opcode.link); put_c_string p module_name

unfoldable pub vmclass : Cursor → IntOp → Text → Option Cursor
vmclass addr_ptr reg class_name = do
  p ← put addr_ptr (to_byte Opcode.class)
  p₁ ← insert_integer_operand p reg
  put_c_string p₁ class_name

unfoldable pub vmderive : Cursor → IntOp → Text → Option Cursor
vmderive addr_ptr reg base_class_name = do
  p ← put addr_ptr (to_byte Opcode.derive)
  p₁ ← insert_integer_operand p reg
  put_c_string p₁ base_class_name

unfoldable pub vmattach : Cursor → IntOp → Text → Text → Option Cursor
vmattach addr_ptr reg function_name method_name = do
  p ← put addr_ptr (to_byte Opcode.attach)
  p₁ ← insert_integer_operand p reg
  p₂ ← put_c_string p₁ function_name
  put_c_string p₂ method_name

unfoldable pub vmregister : Cursor → IntOp → Option Cursor
vmregister addr_ptr regno = do
  p ← put addr_ptr (to_byte Opcode.register)
  insert_integer_operand p regno

unfoldable pub vmnew : Cursor → IntOp → Text → Option Cursor
vmnew addr_ptr reg class_name = do
  p ← put addr_ptr (to_byte Opcode.new)
  p₁ ← insert_integer_operand p reg
  put_c_string p₁ class_name

unfoldable pub vmmsg : Cursor → IntOp → Text → Option Cursor
vmmsg addr_ptr reg method_name = do
  p ← put addr_ptr (to_byte Opcode.msg)
  p₁ ← insert_integer_operand p reg
  put_c_string p₁ method_name

unfoldable pub end : Cursor → Option Cursor
end addr_ptr = put addr_ptr (to_byte Opcode.end)

unfoldable pub halt : Cursor → Option Cursor
halt addr_ptr = put addr_ptr (to_byte Opcode.halt)
