-- ===== src/Bytecode/Encode/Registers.antt =====
-- src/cg/bytecode/instructions.cpp: instructions on text, vectors, booleans and registers.
use viuavm.Common.{Option, if◌then◌else◌, Text, codes, ◌=ᵗ◌}
use viuavm.Common.Maybe.{◌>>=◌}
use viuavm.Bytecode.Opcode.{Opcode, to_byte}
use viuavm.Bytecode.Cursor.{Cursor, put, put_int, skip}
use viuavm.Bytecode.Encode.{
  IntOp, insert_integer_operand, insert_two_integer_ops_instruction,
  insert_three_integer_ops_instruction, put_unquoted,
}

unfoldable pub strstore : Cursor → IntOp → Text → Option Cursor
strstore addr_ptr reg s = do
  p ← put addr_ptr (to_byte Opcode.strstore)
  p₁ ← insert_integer_operand p reg
  put_unquoted p₁ s

unfoldable pub vec : Cursor → IntOp → Option Cursor
vec addr_ptr index = do p ← put addr_ptr (to_byte Opcode.vec); insert_integer_operand p index

unfoldable pub vinsert : Cursor → IntOp → IntOp → IntOp → Option Cursor
vinsert addr_ptr vector src dst =
    insert_three_integer_ops_instruction addr_ptr Opcode.vinsert vector src dst

unfoldable pub vpush : Cursor → IntOp → IntOp → Option Cursor
vpush addr_ptr vector src = insert_two_integer_ops_instruction addr_ptr Opcode.vpush vector src

unfoldable pub vpop : Cursor → IntOp → IntOp → IntOp → Option Cursor
vpop addr_ptr vector dst pos =
    insert_three_integer_ops_instruction addr_ptr Opcode.vpop vector dst pos

unfoldable pub vat : Cursor → IntOp → IntOp → IntOp → Option Cursor
vat addr_ptr vector dst at = insert_three_integer_ops_instruction addr_ptr Opcode.vat vector dst at

unfoldable pub vlen : Cursor → IntOp → IntOp → Option Cursor
vlen addr_ptr vector reg = insert_two_integer_ops_instruction addr_ptr Opcode.vlen vector reg

unfoldable pub lognot : Cursor → IntOp → Option Cursor
lognot addr_ptr reg = do p ← put addr_ptr (to_byte Opcode.not); insert_integer_operand p reg

unfoldable pub logand : Cursor → IntOp → IntOp → IntOp → Option Cursor
logand addr_ptr regr rega regb =
    insert_three_integer_ops_instruction addr_ptr Opcode.and regr rega regb

unfoldable pub logor : Cursor → IntOp → IntOp → IntOp → Option Cursor
logor addr_ptr regr rega regb =
    insert_three_integer_ops_instruction addr_ptr Opcode.or regr rega regb

unfoldable pub move : Cursor → IntOp → IntOp → Option Cursor
move addr_ptr a b = insert_two_integer_ops_instruction addr_ptr Opcode.move a b

unfoldable pub copy : Cursor → IntOp → IntOp → Option Cursor
copy addr_ptr a b = insert_two_integer_ops_instruction addr_ptr Opcode.copy a b

unfoldable pub ref : Cursor → IntOp → IntOp → Option Cursor
ref addr_ptr a b = insert_two_integer_ops_instruction addr_ptr Opcode.ref a b

unfoldable pub swap : Cursor → IntOp → IntOp → Option Cursor
swap addr_ptr a b = insert_two_integer_ops_instruction addr_ptr Opcode.swap a b

unfoldable pub free : Cursor → IntOp → Option Cursor
free addr_ptr reg = do p ← put addr_ptr (to_byte Opcode.free); insert_integer_operand p reg

unfoldable pub empty : Cursor → IntOp → Option Cursor
empty addr_ptr reg = do p ← put addr_ptr (to_byte Opcode.empty); insert_integer_operand p reg

unfoldable pub isnull : Cursor → IntOp → IntOp → Option Cursor
isnull addr_ptr a b = insert_two_integer_ops_instruction addr_ptr Opcode.isnull a b

unfoldable pub ress : Cursor → Text → Option Cursor
ress addr_ptr a = do
  p ← put addr_ptr (to_byte Opcode.ress)
  if a =ᵗ codes "global"
      then put_int p 0
      else if a =ᵗ codes "local"
      then put_int p 1
      else if a =ᵗ codes "static"
      then put_int p 2
      else if a =ᵗ codes "temp"
      then put_int p 3
      else skip p 4

unfoldable pub tmpri : Cursor → IntOp → Option Cursor
tmpri addr_ptr reg = do p ← put addr_ptr (to_byte Opcode.tmpri); insert_integer_operand p reg

unfoldable pub tmpro : Cursor → IntOp → Option Cursor
tmpro addr_ptr reg = do p ← put addr_ptr (to_byte Opcode.tmpro); insert_integer_operand p reg
