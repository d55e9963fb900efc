-- ===== src/Bytecode/Encode.antt =====
-- src/cg/bytecode/instructions.cpp: the helpers that write operands. The encoders are in the children.
pub mod Numbers
pub mod Registers
pub mod Control
use viuavm.Common.{
  ◌<◌, length, arith, ℕ, Bool, Option, none, some, List, [], ◌∷◌, ◌++◌, ◌≡◌, sym, Text,
}
use viuavm.Common.Maybe.{◌>>=◌, >>=_ext, >>=_some}
use viuavm.Bytecode.Opcode.{Opcode, to_byte}
use viuavm.Bytecode.Cursor.{
  Cursor, put, write, put_int, put_bool, put_chars, int_bytes, bool_byte, write-append,
  put_int-write, put_chars-write,
}

-- An `int` and a `float` are their bit patterns, a `byte` is its code.
abbrev pub Word : Type 0
Word = ℕ

abbrev pub Float : Type 0
Float = ℕ

abbrev pub IntOp : Type 0
IntOp = Bool × Word

abbrev pub ByteOp : Type 0
ByteOp = Bool × ℕ

unfoldable pub insert_integer_operand : Cursor → IntOp → Option Cursor
insert_integer_operand addr_ptr (ref, num) = do p ← put_bool addr_ptr ref; put_int p num

unfoldable pub insert_two_integer_ops_instruction : Cursor → Opcode → IntOp → IntOp → Option Cursor
insert_two_integer_ops_instruction addr_ptr instruction a b = do
  p ← put addr_ptr (to_byte instruction)
  p₁ ← insert_integer_operand p a
  insert_integer_operand p₁ b

unfoldable pub insert_three_integer_ops_instruction :
    Cursor → Opcode → IntOp → IntOp → IntOp → Option Cursor
insert_three_integer_ops_instruction addr_ptr instruction a b c = do
  p ← put addr_ptr (to_byte instruction)
  p₁ ← insert_integer_operand p a
  p₂ ← insert_integer_operand p₁ b
  insert_integer_operand p₂ c

-- The loop over a name and the `'\0'` behind it.
unfoldable pub put_c_string : Cursor → Text → Option Cursor
put_c_string addr_ptr s = do p ← put_chars addr_ptr s; put p 0

-- All but the last character.
abbrev pub drop_last : Text → Text
drop_last [] = []
drop_last (c ∷ []) = []
drop_last (c ∷ (d ∷ s)) = c ∷ drop_last (d ∷ s)

-- `for (i = 1; i < s.size()-1; ++i)`: the text inside the quotes. On the empty string the bound wraps
-- around and the loop reads out of bounds, which is a fault.
unfoldable pub put_unquoted : Cursor → Text → Option Cursor
put_unquoted addr_ptr [] = none
put_unquoted addr_ptr (quote ∷ s) = put_c_string addr_ptr (drop_last s)

-- The bytes that the helpers write.
unfoldable pub operand_bytes : IntOp → List ℕ
operand_bytes (ref, num) = bool_byte ref ∷ int_bytes num

unfoldable pub c_string_bytes : Text → List ℕ
c_string_bytes s = s ++ 0 ∷ []

abbrev pub unquoted : Text → Text
unquoted [] = []
unquoted (quote ∷ s) = drop_last s

-- Writing `xs`, and then `ys`, is writing `xs ++ ys`.
pub write_then :
    {m : Option Cursor} {f : Cursor → Option Cursor} (p : Cursor) (xs ys : List ℕ)
    → m ≡ write p xs
    → ((q : Cursor) → f q ≡ write q ys)
    → (m >>= f) ≡ write p (xs ++ ys)
write_then p xs ys h k = rw (h, write-append) (>>=_ext (write p xs) _ _ k)

pub put_then :
    {f : Cursor → Option Cursor} (p : Cursor) (b : ℕ) (ys : List ℕ)
    → ((q : Cursor) → f q ≡ write q ys)
    → (put p b >>= f) ≡ write p (b ∷ ys)
unfolding write
put_then p b ys k = >>=_ext (put p b) _ _ k

pub put-write : (p : Cursor) (b : ℕ) → put p b ≡ write p (b ∷ [])
unfolding write
put-write p b = sym (>>=_some (put p b))

pub insert_integer_operand-write :
    (p : Cursor) (a : IntOp) → insert_integer_operand p a ≡ write p (operand_bytes a)
unfolding insert_integer_operand operand_bytes put_bool
insert_integer_operand-write p (ref, num) = put_then _ _ _ (λ q. put_int-write q num)

pub one_operand-write :
    (p : Cursor) (b : ℕ) (a : IntOp)
    → (put p b >>= λ q. insert_integer_operand q a) ≡ write p (b ∷ operand_bytes a)
one_operand-write p b a = put_then _ _ _ (λ q. insert_integer_operand-write q a)

pub insert_two-write :
    (p : Cursor) (op : Opcode) (a b : IntOp)
    → insert_two_integer_ops_instruction p op a b
      ≡ write p (to_byte op ∷ (operand_bytes a ++ operand_bytes b))
unfolding insert_two_integer_ops_instruction
insert_two-write p op a b =
    put_then _ _ _ λ q.
      write_then _ _ _ (insert_integer_operand-write q a) (λ r. insert_integer_operand-write r b)

pub insert_three-write :
    (p : Cursor) (op : Opcode) (a b c : IntOp)
    → insert_three_integer_ops_instruction p op a b c
      ≡ write p (to_byte op ∷ (operand_bytes a ++ (operand_bytes b ++ operand_bytes c)))
unfolding insert_three_integer_ops_instruction
insert_three-write p op a b c = put_then _ _ _ λ q.
    write_then _ _ _ (insert_integer_operand-write q a) λ r.
      write_then _ _ _ (insert_integer_operand-write r b) (λ s. insert_integer_operand-write s c)

pub put_c_string-write : (p : Cursor) (s : Text) → put_c_string p s ≡ write p (c_string_bytes s)
unfolding put_c_string c_string_bytes
put_c_string-write p s = write_then _ _ _ (put_chars-write p s) (λ q. put-write q 0)

pub put_unquoted-write :
    (p : Cursor) (s : Text)
    → 0 < length s
    → put_unquoted p s ≡ write p (c_string_bytes (unquoted s))
unfolding put_unquoted
put_unquoted-write p [] h = absurd (omega arith)
put_unquoted-write p (quote ∷ s) h = put_c_string-write p (drop_last s)

-- An opcode, an operand and a name.
pub named-write :
    (p : Cursor) (b : ℕ) (a : IntOp) (s : Text)
    → (put p b >>= λ q. insert_integer_operand q a >>= λ r. put_c_string r s)
      ≡ write p (b ∷ (operand_bytes a ++ c_string_bytes s))
named-write p b a s =
    put_then _ _ _
      λ q. write_then _ _ _ (insert_integer_operand-write q a) (λ r. put_c_string-write r s)
