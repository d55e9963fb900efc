-- ===== src/Bytecode/Instruction/Emit.antt =====
-- The encoders against the layout: what they write, and how many bytes that takes.
use viuavm.Common.{
  ℕ, if◌then◌else◌, ◌+◌, ◌≤◌, ◌<◌, ◌≡◌, refl, ◌∙◌, Bool, true, false, Option, none, some, [], ◌∷◌,
  ◌++◌, arith, length, length-append, drop, Text, codes, ◌=ᵗ◌,
}
use viuavm.Bytecode.Tables.{op_size}
use viuavm.Bytecode.Cursor.{
  Cursor, put_bool, write, put_int, skip, int_bytes, put_int-write, write_lem, write_full,
}
use viuavm.Bytecode.Encode.{
  IntOp, operand_bytes, c_string_bytes, write_then, put_then, put-write, one_operand-write,
  insert_integer_operand-write, insert_two-write, insert_three-write, put_c_string-write,
  put_unquoted-write, named-write,
}
use viuavm.Bytecode.Encode.Numbers.{
  nop, izero, istore, iadd, isub, imul, idiv, iinc, idec, ilt, ilte, igt, igte, ieq, fstore, fadd,
  fsub, fmul, fdiv, flt, flte, fgt, fgte, feq, bstore, itof, ftoi, stoi, stof,
}
use viuavm.Bytecode.Encode.Registers.{
  strstore, vec, vinsert, vpush, vpop, vat, vlen, lognot, logand, logor, move, copy, ref, swap,
  free, empty, isnull, ress, tmpri, tmpro,
}
use viuavm.Bytecode.Encode.Control.{
  print, echo, clbind, closure, function, fcall, frame, param, paref, arg, argc, call, jump, branch,
  vmtry, vmcatch, pull, vmenter, vmthrow, leave, import, link, vmclass, vmderive, vmattach,
  vmregister, vmnew, vmmsg, end, halt,
}
use viuavm.Bytecode.Instruction.{Instruction, emit}
use viuavm.Bytecode.Instruction.Layout.{
  ress_id, ress_bytes, opcode, operands, layout, names, name_bytes, size_in_bytes, IsWritable,
}

abbrev ress_number : Bool → Bool → Bool → Bool → Option ℕ
ress_number g l s t =
    if g then some 0 else if l then some 1 else if s then some 2 else if t then some 3 else none

ress_choice :
    (q : Cursor) (g l s t : Bool) (n : ℕ)
    → ress_number g l s t ≡ some n
    → (if g
        then put_int q 0
        else if l
        then put_int q 1
        else if s
        then put_int q 2
        else if t
        then put_int q 3
        else skip q 4)
      ≡ write q (ress_bytes (ress_number g l s t))
ress_choice q true l s t n e = put_int-write q 0
ress_choice q false true s t n e = put_int-write q 1
ress_choice q false false true t n e = put_int-write q 2
ress_choice q false false false true n e = put_int-write q 3
ress_choice q false false false false n e = cc

-- The encoder of an instruction writes exactly its layout.
pub emit-write : (p : Cursor) (i : Instruction) → IsWritable i → emit p i ≡ write p (layout i)
unfolding emit ress_id put_bool opcode operands nop izero istore iadd isub imul idiv iinc idec ilt
    ilte igt igte ieq fstore fadd fsub fmul fdiv flt flte fgt fgte feq bstore itof ftoi stoi stof
    strstore vec vinsert vpush vpop vat vlen lognot logand logor move copy ref swap free empty
    isnull ress tmpri tmpro print echo clbind closure function fcall frame param paref arg argc call
    jump branch vmtry vmcatch pull vmenter vmthrow leave import link vmclass vmderive vmattach
    vmregister vmnew vmmsg end halt
emit-write p Instruction.nop w = put-write p _
emit-write p (Instruction.fstore a f) w =
    put_then _ _ _ λ q. write_then _ _ _ (insert_integer_operand-write q a) (λ r. put_int-write r f)
emit-write p (Instruction.bstore a b) w = put_then _ _ _ λ q.
    write_then _ _ _ (insert_integer_operand-write q a) λ r. put_then _ _ _ (λ s. put-write s b.1)
emit-write p (Instruction.strstore a s) w =
    put_then _ _ _
      λ q. write_then _ _ _ (insert_integer_operand-write q a) (λ r. put_unquoted-write r s w)
emit-write p (Instruction.ress a) w = put_then _ _ _ λ q.
    ress_choice q (a =ᵗ codes "global") (a =ᵗ codes "local") (a =ᵗ codes "static")
      (a =ᵗ codes "temp") w.0 w.1
emit-write p (Instruction.jump a k) w = put_then _ _ _ λ q. put_int-write q a
emit-write p (Instruction.branch a t k f l) w = put_then _ _ _ λ q.
    write_then _ _ _ (insert_integer_operand-write q a)
      λ r. write_then _ _ _ (put_int-write r t) (λ s. put_int-write s f)
emit-write p (Instruction.vmcatch t b) w =
    put_then _ _ _ λ q. write_then _ _ _ (put_unquoted-write q t w) (λ r. put_c_string-write r b)
emit-write p (Instruction.vmenter b) w = put_then _ _ _ λ q. put_c_string-write q b
emit-write p (Instruction.import m) w = put_then _ _ _ λ q. put_unquoted-write q m w
emit-write p (Instruction.link m) w = put_then _ _ _ λ q. put_c_string-write q m
emit-write p (Instruction.vmattach a f m) w = put_then _ _ _ λ q.
    write_then _ _ _ (insert_integer_operand-write q a)
      λ r. write_then _ _ _ (put_c_string-write r f) (λ s. put_c_string-write s m)
emit-write p _ w =
    search (put-write, one_operand-write, insert_two-write, insert_three-write, named-write)

operand_bytes-length : (a : IntOp) → length (operand_bytes a) ≡ 5
unfolding operand_bytes int_bytes
operand_bytes-length (ref, num) = refl

c_string_bytes-length : (s : Text) → length (c_string_bytes s) ≡ length s + 1
unfolding c_string_bytes
c_string_bytes-length s = length-append s (0 ∷ [])

-- The layout of an instruction that the assembler can write (its quoted texts are not empty, its
-- register set is known) is as long as the size tables say: the fixed part and the names behind it.
pub length-layout : (i : Instruction) → IsWritable i → length (layout i) ≡ size_in_bytes i
unfolding op_size opcode operands names name_bytes int_bytes
length-layout (Instruction.ress a) (n, e) = rw e refl
length-layout Instruction.nop w = refl
length-layout _ w = omega (arith, length-append {0}, operand_bytes-length, c_string_bytes-length)

-- Where the buffer has as many bytes left as the size tables give, the encoder of a writable
-- instruction writes its layout at `addr_ptr` and moves past it, and changes no other byte.
pub emit_in_bounds :
    (p : Cursor) (i : Instruction)
    → IsWritable i
    → size_in_bytes i ≤ length p.after
    → emit p i
      ≡ some (record { before = p.before ++ layout i; after = drop (length (layout i)) p.after })
emit_in_bounds p i w h =
    emit-write p i w ∙ write_lem p (layout i) (omega (arith, length-layout i w))

-- Where the buffer has fewer bytes left than the size tables give, the encoder of a writable
-- instruction would write past the end of the buffer.
pub emit_overflow :
    (p : Cursor) (i : Instruction)
    → IsWritable i
    → length p.after < size_in_bytes i
    → emit p i ≡ none
emit_overflow p i w h =
    emit-write p i w ∙ write_full p (layout i) (omega (arith, length-layout i w))
