-- ===== src/Tests/Machine.antt =====
-- A small program, its run, and the theorems on the machine at concrete inputs.
use viuavm.Common.{
  inr, =ᵗ-eq, subst, inl, Bool-cases, ℕ, ◌+◌, ◌-◌, ◌≡◌, refl, arith, Bool, true, false, Option,
  none, some, List, [], ◌∷◌, get_or, Text, codes, All, ◌=ᵗ◌,
}
use viuavm.Common.Throw.{Result, ok, err}
use viuavm.Bytecode.Opcode.{Opcode, of_byte, to_byte}
use viuavm.Cpu.RegisterSet.{register_set, at, set as set_in}
use viuavm.Cpu.Machine.{
  Cpu, Object, Selected, Cause, Stop, raise, lookup, lookup_at, find_frame, put_regset, used,
  selected_regset, with_used, with_selected, is_empty, read, modify, pure, stop, deref, ◌>>=◌, ◌>>◌,
}
use viuavm.Cpu.Machine.Sharing.{hasrefs, hasrefs_loop, same_pointer}
use viuavm.Cpu.Machine.Objects.{
  is_reference, new_object, registers, lift, set_register, perform, perform_one,
  update_unless_flagged, place, place_new,
}
use viuavm.Cpu.Machine.Operands.{operand, resolve, read_bool, read_int}
use viuavm.Cpu.Instructions.Integers.{izero}
use viuavm.Cpu.Instructions.Floats.{FloatUnit}
use viuavm.Cpu.Instructions.Registers.{ress, select, select_registers}
use viuavm.Cpu.Dispatch.{Host, handler, dispatch}
use viuavm.Cpu.Dispatch.Advances.{is_straight, handler-op_size}
use viuavm.Bytecode.Tables.{op_size}
use viuavm.Cpu.Tick.{
  tick, ticks, after_dispatch, is_dynamic, is_stuck, top_function, top_block, handle_thrown,
  if_thrown,
}
use viuavm.Cpu.Run.{
  run, run_to_end, release, release_from, released, iframe, entry_frame, start_in, run_from_start,
  begin, exit_code, default_register_size,
}
use viuavm.Cpu.Inheritance.{Typesystem, chain_of}
use viuavm.Cpu.Inheritance.Termination.{Below, IsWellFounded, chain_of-ends}
use viuavm.Cpu.Soundness.Run.{Ends as RunEnds}

-- `izero 1`, then `halt`, at address 100.
abbrev program : List ℕ
program = 1 ∷ 0 ∷ 1 ∷ 0 ∷ 0 ∷ 0 ∷ 90 ∷ []

abbrev pub idle : Cpu
idle = record {
  memory = λ a. get_or program (a - 100) 0;
  bytecode = 100;
  bytecode_size = 7;
  executable_offset = 0;
  global_regset = some (register_set 4);
  uregset = Selected.global;
  tmp = none;
  static_registers = [];
  typesystem = [];
  frames = [];
  frame_new = none;
  tryframes = [];
  try_frame_new = none;
  jump_base = 100;
  function_addresses = (codes "main", 0) ∷ (codes "f", 6) ∷ [];
  block_addresses = [];
  linked_functions = [];
  linked_blocks = [];
  linked_modules = [];
  thrown = none;
  caught = none;
  return_code = 0;
  return_exception = [];
  instruction_counter = 0;
  instruction_pointer = 100;
  objects = [];
  cells = [];
  next = 1;
  output = [];
  effects = [];
}

abbrev no_floats : FloatUnit
no_floats = record {
  add = λ a b. 0;
  sub = λ a b. 0;
  mul = λ a b. 0;
  div = λ a b. 0;
  lt = λ a b. false;
  lte = λ a b. false;
  gt = λ a b. false;
  gte = λ a b. false;
  eq = λ a b. false;
  of_int = λ a. 0;
  to_int = λ a. 0;
}

abbrev host : Host
host = record {
  float_unit = no_floats;
  str = λ o. [];
  foreign_functions = λ name. none;
  others = λ op a. raise Cause.unrecognised_instruction;
}

abbrev message : Cause → Text
message c = []

-- What register 1 of the entry frame holds when the program has halted.
abbrev outcome : Result (Stop × Cpu) (Bool × Cpu) → Bool × Option Object
outcome (ok (finished, s)) = (
  finished,
  elim (used s) [
    | none ↦ none
    | some rs ↦ elim (get_or rs.registers 1 none) [ none ↦ none | some p ↦ lookup_at p s.objects ]
  ],
)
outcome (err e) = (false, none)

run_test : outcome (run_to_end host message false 3 idle) ≡ (true, some (Object.integer 0))
unfolding run_to_end iframe entry_frame start_in run_from_start begin exit_code ticks tick dispatch
    of_byte handler izero operand read_bool read_int resolve place_new place new_object registers
    lift hasrefs hasrefs_loop set_register perform is_reference update_unless_flagged used
    selected_regset with_used with_selected find_frame put_regset set_in at same_pointer
    register_set after_dispatch is_empty is_dynamic top_function top_block is_stuck handle_thrown
    if_thrown lookup lookup_at read modify pure stop deref ◌=ᵗ◌ to_byte default_register_size
    perform_one ◌>>=◌ ◌>>◌
run_test = refl

-- The end of `run` deletes that frame.
released_test : outcome (run host message false 3 idle) ≡ (true, none)
unfolding run run_to_end release release_from released iframe entry_frame start_in run_from_start
    begin exit_code ticks tick dispatch of_byte handler izero operand read_bool read_int resolve
    place_new place new_object registers lift hasrefs hasrefs_loop set_register perform is_reference
    update_unless_flagged used selected_regset with_used with_selected find_frame put_regset set_in
    at same_pointer register_set after_dispatch is_empty is_dynamic top_function top_block is_stuck
    handle_thrown if_thrown lookup lookup_at read modify pure stop deref ◌=ᵗ◌ to_byte
    default_register_size perform_one ◌>>=◌ ◌>>◌
released_test = refl

-- `ress global`
abbrev switching : Cpu
switching = record idle { memory = λ a. get_or (57 ∷ 0 ∷ 0 ∷ 0 ∷ 0 ∷ []) (a - 100) 0 }

handler-op_size_example : 105 ≡ 100 + op_size Opcode.ress
unfolding is_straight handler ress select_registers select read_int read modify pure ◌>>=◌ ◌>>◌
handler-op_size_example =
    handler-op_size host Opcode.ress 100 switching 105
      (record switching { uregset = Selected.global }) refl refl

-- `B` is derived from `A`.
abbrev types : Typesystem
types = (codes "B", codes "A" ∷ []) ∷ (codes "A", []) ∷ []

abbrev rank : Text → ℕ
rank [] = 0
rank (c ∷ name) = c

b-Below : All (Below types rank 66) (codes "A" ∷ [])
unfolding lookup ◌=ᵗ◌
b-Below = (record { ancestors = []; is_known = refl; is_below = omega arith }, tt)

types-Below :
    (name : Text) (ancestors : List Text)
    → lookup name types ≡ some ancestors
    → All (Below types rank (rank name)) ancestors
unfolding lookup
types-Below name ancestors h = elim (Bool-cases (codes "B" =ᵗ name)) [
  | inl e ↦
      let known : codes "A" ∷ [] ≡ ancestors = ground (arith, e, h) in
      subst (λ n. All (Below types rank (rank n)) ancestors) (=ᵗ-eq (codes "B") name e)
        (subst (All (Below types rank 66)) known b-Below)
  | inr e ↦ elim (Bool-cases (codes "A" =ᵗ name)) [
    | inl f ↦
        let known : [] ≡ ancestors = ground (arith, e, f, h) in
        subst (All (Below types rank (rank name))) known tt
    | inr f ↦ absurd (ground (arith, e, f, h))
  ]
]

types-IsWellFounded : IsWellFounded types rank
types-IsWellFounded = record { below = types-Below }

chain_of-ends_example :
    (rounds : ℕ) × ((chain : List Text) × (((k : ℕ)
          → chain_of types (rounds + k) (codes "B") ≡ ok chain)
        × All (Below types rank (rank (codes "B"))) chain))
unfolding lookup ◌=ᵗ◌
chain_of-ends_example =
    chain_of-ends types rank (codes "B") (codes "A" ∷ []) types-IsWellFounded refl
