-- ===== src/Bytecode/Encode/Numbers.antt =====
-- src/cg/bytecode/instructions.cpp: instructions on integers, floats and bytes, and the conversions.
use viuavm.Common.{Option}
use viuavm.Common.Maybe.{◌>>=◌}
use viuavm.Bytecode.Opcode.{Opcode, to_byte}
use viuavm.Bytecode.Cursor.{Cursor, put, put_int, put_bool}
use viuavm.Bytecode.Encode.{
  Float, IntOp, ByteOp, insert_integer_operand, insert_two_integer_ops_instruction,
  insert_three_integer_ops_instruction,
}

unfoldable pub nop : Cursor → Option Cursor
nop addr_ptr = put addr_ptr (to_byte Opcode.nop)

unfoldable pub izero : Cursor → IntOp → Option Cursor
izero addr_ptr regno = do p ← put addr_ptr (to_byte Opcode.izero); insert_integer_operand p regno

unfoldable pub istore : Cursor → IntOp → IntOp → Option Cursor
istore addr_ptr regno i = insert_two_integer_ops_instruction addr_ptr Opcode.istore regno i

unfoldable pub iadd : Cursor → IntOp → IntOp → IntOp → Option Cursor
iadd addr_ptr rega regb regr =
    insert_three_integer_ops_instruction addr_ptr Opcode.iadd rega regb regr

unfoldable pub isub : Cursor → IntOp → IntOp → IntOp → Option Cursor
isub addr_ptr rega regb regr =
    insert_three_integer_ops_instruction addr_ptr Opcode.isub rega regb regr

unfoldable pub imul : Cursor → IntOp → IntOp → IntOp → Option Cursor
imul addr_ptr rega regb regr =
    insert_three_integer_ops_instruction addr_ptr Opcode.imul rega regb regr

unfoldable pub idiv : Cursor → IntOp → IntOp → IntOp → Option Cursor
idiv addr_ptr rega regb regr =
    insert_three_integer_ops_instruction addr_ptr Opcode.idiv rega regb regr

unfoldable pub iinc : Cursor → IntOp → Option Cursor
iinc addr_ptr regno = do p ← put addr_ptr (to_byte Opcode.iinc); insert_integer_operand p regno

unfoldable pub idec : Cursor → IntOp → Option Cursor
idec addr_ptr regno = do p ← put addr_ptr (to_byte Opcode.idec); insert_integer_operand p regno

unfoldable pub ilt : Cursor → IntOp → IntOp → IntOp → Option Cursor
ilt addr_ptr rega regb regr =
    insert_three_integer_ops_instruction addr_ptr Opcode.ilt rega regb regr

unfoldable pub ilte : Cursor → IntOp → IntOp → IntOp → Option Cursor
ilte addr_ptr rega regb regr =
    insert_three_integer_ops_instruction addr_ptr Opcode.ilte rega regb regr

unfoldable pub igt : Cursor → IntOp → IntOp → IntOp → Option Cursor
igt addr_ptr rega regb regr =
    insert_three_integer_ops_instruction addr_ptr Opcode.igt rega regb regr

unfoldable pub igte : Cursor → IntOp → IntOp → IntOp → Option Cursor
igte addr_ptr rega regb regr =
    insert_three_integer_ops_instruction addr_ptr Opcode.igte rega regb regr

unfoldable pub ieq : Cursor → IntOp → IntOp → IntOp → Option Cursor
ieq addr_ptr rega regb regr =
    insert_three_integer_ops_instruction addr_ptr Opcode.ieq rega regb regr

unfoldable pub fstore : Cursor → IntOp → Float → Option Cursor
fstore addr_ptr regno f = do
  p ← put addr_ptr (to_byte Opcode.fstore)
  p₁ ← insert_integer_operand p regno
  put_int p₁ f

unfoldable pub fadd : Cursor → IntOp → IntOp → IntOp → Option Cursor
fadd addr_ptr rega regb regr =
    insert_three_integer_ops_instruction addr_ptr Opcode.fadd rega regb regr

unfoldable pub fsub : Cursor → IntOp → IntOp → IntOp → Option Cursor
fsub addr_ptr rega regb regr =
    insert_three_integer_ops_instruction addr_ptr Opcode.fsub rega regb regr

unfoldable pub fmul : Cursor → IntOp → IntOp → IntOp → Option Cursor
fmul addr_ptr rega regb regr =
    insert_three_integer_ops_instruction addr_ptr Opcode.fmul rega regb regr

unfoldable pub fdiv : Cursor → IntOp → IntOp → IntOp → Option Cursor
fdiv addr_ptr rega regb regr =
    insert_three_integer_ops_instruction addr_ptr Opcode.fdiv rega regb regr

unfoldable pub flt : Cursor → IntOp → IntOp → IntOp → Option Cursor
flt addr_ptr rega regb regr =
    insert_three_integer_ops_instruction addr_ptr Opcode.flt rega regb regr

unfoldable pub flte : Cursor → IntOp → IntOp → IntOp → Option Cursor
flte addr_ptr rega regb regr =
    insert_three_integer_ops_instruction addr_ptr Opcode.flte rega regb regr

unfoldable pub fgt : Cursor → IntOp → IntOp → IntOp → Option Cursor
fgt addr_ptr rega regb regr =
    insert_three_integer_ops_instruction addr_ptr Opcode.fgt rega regb regr

unfoldable pub fgte : Cursor → IntOp → IntOp → IntOp → Option Cursor
fgte addr_ptr rega regb regr =
    insert_three_integer_ops_instruction addr_ptr Opcode.fgte rega regb regr

unfoldable pub feq : Cursor → IntOp → IntOp → IntOp → Option Cursor
feq addr_ptr rega regb regr =
    insert_three_integer_ops_instruction addr_ptr Opcode.feq rega regb regr

unfoldable pub bstore : Cursor → IntOp → ByteOp → Option Cursor
bstore addr_ptr regno (b_ref, bt) = do
  p ← put addr_ptr (to_byte Opcode.bstore)
  p₁ ← insert_integer_operand p regno
  p₂ ← put_bool p₁ b_ref
  put p₂ bt

unfoldable pub itof : Cursor → IntOp → IntOp → Option Cursor
itof addr_ptr a b = insert_two_integer_ops_instruction addr_ptr Opcode.itof a b

unfoldable pub ftoi : Cursor → IntOp → IntOp → Option Cursor
ftoi addr_ptr a b = insert_two_integer_ops_instruction addr_ptr Opcode.ftoi a b

unfoldable pub stoi : Cursor → IntOp → IntOp → Option Cursor
stoi addr_ptr a b = insert_two_integer_ops_instruction addr_ptr Opcode.stoi a b

unfoldable pub stof : Cursor → IntOp → IntOp → Option Cursor
stof addr_ptr a b = insert_two_integer_ops_instruction addr_ptr Opcode.stof a b
