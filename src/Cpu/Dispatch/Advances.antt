-- ===== src/Cpu/Dispatch/Advances.antt =====
-- src/cpu/dispatch.cpp and src/cpu/instr, with include/viua/bytecode/maps.h: how far an instruction moves on.
use viuavm.Common.{subst, ◌+◌, ◌≡◌, Bool, true, false, arith}
use viuavm.Common.Throw.{ok}
use viuavm.Bytecode.Opcode.{Opcode}
use viuavm.Bytecode.Tables.{op_size}
use viuavm.Cpu.Machine.{Cpu, Exec, Word, Address, Object}
use viuavm.Cpu.Frames.Arguments.{frame, param, paref, arg, argc}
use viuavm.Cpu.Blocks.{vmtry, pull, vmthrow}
use viuavm.Cpu.Instructions.{combine}
use viuavm.Cpu.Instructions.Integers.{
  izero, istore, iadd, isub, imul, idiv, iinc, idec, ilt, ilte, igt, igte, ieq, lognot, logand,
  logor, step_register, combine_booleans,
}
use viuavm.Cpu.Instructions.Floats.{
  fstore, fadd, fsub, fmul, fdiv, flt, flte, fgt, fgte, feq, bstore, itof, ftoi, convert,
}
use viuavm.Cpu.Instructions.Registers.{
  move, copy, ref, swap, free, empty, isnull, ress, tmpri, tmpro,
}
use viuavm.Cpu.Instructions.Control.{echo, print}
use viuavm.Cpu.Dispatch.{Host, handler}
use viuavm.Cpu.Dispatch.Returns.{Returns-bind_at, Returns, Value, returns_rules}

-- The instructions of a fixed length that control passes through and whose handlers are modelled: all but
-- stoi, stof, vec, vinsert, vpush, vpop, vat, vlen, clbind and register, which the host has.
unfoldable pub is_straight : Opcode → Bool
is_straight Opcode.nop = true
is_straight Opcode.izero = true
is_straight Opcode.istore = true
is_straight Opcode.iadd = true
is_straight Opcode.isub = true
is_straight Opcode.imul = true
is_straight Opcode.idiv = true
is_straight Opcode.iinc = true
is_straight Opcode.idec = true
is_straight Opcode.ilt = true
is_straight Opcode.ilte = true
is_straight Opcode.igt = true
is_straight Opcode.igte = true
is_straight Opcode.ieq = true
is_straight Opcode.fstore = true
is_straight Opcode.fadd = true
is_straight Opcode.fsub = true
is_straight Opcode.fmul = true
is_straight Opcode.fdiv = true
is_straight Opcode.flt = true
is_straight Opcode.flte = true
is_straight Opcode.fgt = true
is_straight Opcode.fgte = true
is_straight Opcode.feq = true
is_straight Opcode.bstore = true
is_straight Opcode.itof = true
is_straight Opcode.ftoi = true
is_straight Opcode.not = true
is_straight Opcode.and = true
is_straight Opcode.or = true
is_straight Opcode.move = true
is_straight Opcode.copy = true
is_straight Opcode.ref = true
is_straight Opcode.swap = true
is_straight Opcode.free = true
is_straight Opcode.empty = true
is_straight Opcode.isnull = true
is_straight Opcode.ress = true
is_straight Opcode.tmpri = true
is_straight Opcode.tmpro = true
is_straight Opcode.print = true
is_straight Opcode.echo = true
is_straight Opcode.frame = true
is_straight Opcode.param = true
is_straight Opcode.paref = true
is_straight Opcode.arg = true
is_straight Opcode.argc = true
is_straight Opcode.try = true
is_straight Opcode.throw = true
is_straight Opcode.pull = true
is_straight _ = false

combine-Returns :
    {A : Type 0} (fetched : Word → Exec A) (f : A → A → Exec Object) (a : Address)
    → Returns (a + 15) (combine fetched f a)
unfolding combine
combine-Returns fetched f a = search returns_rules depth 12

ruleset advance_rules = (returns_rules, combine-Returns)

-- The bytes after the opcode are the operands'.
Returns-at : {A : Type 0} (v w : A) (m : Exec A) → v ≡ w → Returns v m → Returns w m
Returns-at v w m e r = subst (λ x. Returns x m) e r

pub handler-Returns :
    (host : Host) (op : Opcode) (a : Address)
    → is_straight op ≡ true
    → Returns (a + op_size op) (handler host op (a + 1))
unfolding is_straight handler op_size izero istore iadd isub imul idiv iinc idec ilt ilte igt igte
    ieq fstore fadd fsub fmul fdiv flt flte fgt fgte feq bstore itof ftoi lognot logand logor move
    copy ref swap free empty isnull ress tmpri tmpro print echo frame param paref arg argc vmtry
    vmthrow pull step_register combine_booleans convert
handler-Returns host Opcode.nop a h = search returns_rules
handler-Returns host Opcode.izero a h =
    Returns-at (a + 1 + 5) _ _ (omega arith) (search advance_rules depth 16)
handler-Returns host Opcode.istore a h =
    Returns-at (a + 1 + 10) _ _ (omega arith) (search advance_rules depth 16)
handler-Returns host Opcode.iadd a h =
    Returns-at (a + 1 + 15) _ _ (omega arith) (search advance_rules depth 16)
handler-Returns host Opcode.isub a h =
    Returns-at (a + 1 + 15) _ _ (omega arith) (search advance_rules depth 16)
handler-Returns host Opcode.imul a h =
    Returns-at (a + 1 + 15) _ _ (omega arith) (search advance_rules depth 16)
handler-Returns host Opcode.idiv a h =
    Returns-at (a + 1 + 15) _ _ (omega arith) (search advance_rules depth 16)
handler-Returns host Opcode.iinc a h =
    Returns-at (a + 1 + 5) _ _ (omega arith) (search advance_rules depth 16)
handler-Returns host Opcode.idec a h =
    Returns-at (a + 1 + 5) _ _ (omega arith) (search advance_rules depth 16)
handler-Returns host Opcode.ilt a h =
    Returns-at (a + 1 + 15) _ _ (omega arith) (search advance_rules depth 16)
handler-Returns host Opcode.ilte a h =
    Returns-at (a + 1 + 15) _ _ (omega arith) (search advance_rules depth 16)
handler-Returns host Opcode.igt a h =
    Returns-at (a + 1 + 15) _ _ (omega arith) (search advance_rules depth 16)
handler-Returns host Opcode.igte a h =
    Returns-at (a + 1 + 15) _ _ (omega arith) (search advance_rules depth 16)
handler-Returns host Opcode.ieq a h =
    Returns-at (a + 1 + 15) _ _ (omega arith) (search advance_rules depth 16)
handler-Returns host Opcode.fstore a h =
    Returns-at (a + 1 + 9) _ _ (omega arith) (search advance_rules depth 16)
handler-Returns host Opcode.fadd a h =
    Returns-at (a + 1 + 15) _ _ (omega arith) (search advance_rules depth 16)
handler-Returns host Opcode.fsub a h =
    Returns-at (a + 1 + 15) _ _ (omega arith) (search advance_rules depth 16)
handler-Returns host Opcode.fmul a h =
    Returns-at (a + 1 + 15) _ _ (omega arith) (search advance_rules depth 16)
handler-Returns host Opcode.fdiv a h =
    Returns-at (a + 1 + 15) _ _ (omega arith) (search advance_rules depth 16)
handler-Returns host Opcode.flt a h =
    Returns-at (a + 1 + 15) _ _ (omega arith) (search advance_rules depth 16)
handler-Returns host Opcode.flte a h =
    Returns-at (a + 1 + 15) _ _ (omega arith) (search advance_rules depth 16)
handler-Returns host Opcode.fgt a h =
    Returns-at (a + 1 + 15) _ _ (omega arith) (search advance_rules depth 16)
handler-Returns host Opcode.fgte a h =
    Returns-at (a + 1 + 15) _ _ (omega arith) (search advance_rules depth 16)
handler-Returns host Opcode.feq a h =
    Returns-at (a + 1 + 15) _ _ (omega arith) (search advance_rules depth 16)
handler-Returns host Opcode.bstore a h =
    Returns-at (a + 1 + 7) _ _ (omega arith) (search advance_rules depth 16)
handler-Returns host Opcode.itof a h =
    Returns-at (a + 1 + 10) _ _ (omega arith) (search advance_rules depth 16)
handler-Returns host Opcode.ftoi a h =
    Returns-at (a + 1 + 10) _ _ (omega arith) (search advance_rules depth 16)
handler-Returns host Opcode.not a h =
    Returns-at (a + 1 + 5) _ _ (omega arith) (search advance_rules depth 16)
handler-Returns host Opcode.and a h =
    Returns-at (a + 1 + 15) _ _ (omega arith) (search advance_rules depth 16)
handler-Returns host Opcode.or a h =
    Returns-at (a + 1 + 15) _ _ (omega arith) (search advance_rules depth 16)
handler-Returns host Opcode.move a h =
    Returns-at (a + 1 + 10) _ _ (omega arith) (search advance_rules depth 16)
handler-Returns host Opcode.copy a h =
    Returns-at (a + 1 + 10) _ _ (omega arith) (search advance_rules depth 16)
handler-Returns host Opcode.ref a h =
    Returns-at (a + 1 + 10) _ _ (omega arith) (search advance_rules depth 16)
handler-Returns host Opcode.swap a h =
    Returns-at (a + 1 + 10) _ _ (omega arith) (search advance_rules depth 16)
handler-Returns host Opcode.free a h =
    Returns-at (a + 1 + 5) _ _ (omega arith) (search advance_rules depth 16)
handler-Returns host Opcode.empty a h =
    Returns-at (a + 1 + 5) _ _ (omega arith) (search advance_rules depth 16)
handler-Returns host Opcode.isnull a h =
    Returns-at (a + 1 + 10) _ _ (omega arith) (search advance_rules depth 16)
handler-Returns host Opcode.ress a h =
    Returns-at (a + 1 + 4) _ _ (omega arith) (search advance_rules depth 16)
handler-Returns host Opcode.tmpri a h =
    Returns-at (a + 1 + 5) _ _ (omega arith) (search advance_rules depth 16)
handler-Returns host Opcode.tmpro a h =
    Returns-at (a + 1 + 5) _ _ (omega arith) (search advance_rules depth 16)
handler-Returns host Opcode.print a h = Returns-at (a + 1 + 5) _ _ (omega arith) (
    Returns-bind_at _ (echo host.str (a + 1)) (a + 1 + 5) _ (search advance_rules depth 16)
      (search advance_rules))
handler-Returns host Opcode.echo a h =
    Returns-at (a + 1 + 5) _ _ (omega arith) (search advance_rules depth 16)
handler-Returns host Opcode.frame a h =
    Returns-at (a + 1 + 10) _ _ (omega arith) (search advance_rules depth 16)
handler-Returns host Opcode.param a h =
    Returns-at (a + 1 + 10) _ _ (omega arith) (search advance_rules depth 16)
handler-Returns host Opcode.paref a h =
    Returns-at (a + 1 + 10) _ _ (omega arith) (search advance_rules depth 16)
handler-Returns host Opcode.arg a h =
    Returns-at (a + 1 + 10) _ _ (omega arith) (search advance_rules depth 16)
handler-Returns host Opcode.argc a h =
    Returns-at (a + 1 + 5) _ _ (omega arith) (search advance_rules depth 16)
handler-Returns host Opcode.try a h = search advance_rules
handler-Returns host Opcode.throw a h =
    Returns-at (a + 1 + 5) _ _ (omega arith) (search advance_rules depth 16)
handler-Returns host Opcode.pull a h =
    Returns-at (a + 1 + 5) _ _ (omega arith) (search advance_rules depth 16)
handler-Returns host _ a h = cc

-- An instruction of a fixed length that control passes through, but for stoi, stof, vec, vinsert,
-- vpush, vpop, vat, vlen, clbind and register, whose handlers are not modelled, leads to the address
-- that is its size in the table of the assembler further on, whenever it returns at all.
pub handler-op_size :
    (host : Host) (op : Opcode) (a : Address) (s : Cpu) (next_address : Address) (t : Cpu)
    → is_straight op ≡ true
    → handler host op (a + 1) s ≡ ok (next_address, t)
    → next_address ≡ a + op_size op
handler-op_size host op a s next_address t straight e =
    subst (Value (a + op_size op)) e ((handler-Returns host op a straight).from s)
