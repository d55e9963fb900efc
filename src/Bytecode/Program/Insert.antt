-- ===== src/Bytecode/Program/Insert.antt =====
-- Inserting a sequence of instructions: the bytes of the program, and the jumps that are saved.
use viuavm.Common.{
  ap, false, if◌then◌else◌, true, Bool, Option, ℕ, ◌+◌, ◌<◌, ◌≤◌, ◌≡◌, refl, sym, ◌∙◌, none, some,
  List, [], ◌∷◌, ◌++◌, arith, length, drop, All, append_assoc, append-nil, length-drop,
}
use native.Mathlib.Decide.{dec_lt}
use viuavm.Bytecode.Encode.{IntOp}
use viuavm.Bytecode.Instruction.{Instruction, JumpType}
use viuavm.Bytecode.Instruction.Layout.{layout, IsWritable, size_in_bytes}
use viuavm.Bytecode.Instruction.Emit.{emit_in_bounds, emit_overflow, length-layout}
use viuavm.Bytecode.Program.Walk.{code_of, bytes_of}
use viuavm.Bytecode.Program.{
  sizeof_bool, sizeof_int, sizeof_byte, position, Cursor, Program, save, save_jumps, insert,
  insert_all,
}

-- The program over a fresh array of `n` bytes, whatever they are.
abbrev pub fresh : List ℕ → Program
fresh bytes = record {
  cursor = record { before = []; after = bytes };
  branches = [];
  branches_absolute = [];
}

abbrev pub cursor_of : Option Program → Option Cursor
cursor_of none = none
cursor_of (some p) = some p.cursor

pub empty_of_length : (xs : List ℕ) → length xs ≡ 0 → xs ≡ []
empty_of_length [] z = refl
empty_of_length (x ∷ xs) z = absurd (omega arith)

-- `p` after an instruction that found room.
abbrev pub inserted : Program → Instruction → Program
inserted p i = record (save_jumps p i) {
  cursor = record {
    before = p.cursor.before ++ layout i;
    after = drop (length (layout i)) p.cursor.after;
  };
}

pub insert_lem :
    (p : Program) (i : Instruction)
    → IsWritable i
    → size_in_bytes i ≤ length p.cursor.after
    → insert p i ≡ some (inserted p i)
unfolding insert
insert_lem p i w room = rw (emit_in_bounds p.cursor i w room) refl

pub insert_all-cursor :
    (p : Program) (is : List Instruction)
    → All IsWritable is
    → bytes_of is ≤ length p.cursor.after
    → (q : Program) × (insert_all p is ≡ some q)
      × (q.cursor.before ≡ p.cursor.before ++ code_of is)
      × (length q.cursor.after + bytes_of is ≡ length p.cursor.after)
unfolding insert_all
insert_all-cursor p [] h room = (p, refl, sym (append-nil _), omega arith)
insert_all-cursor p (i ∷ is) h room =
    let gone = length-drop (length (layout i)) p.cursor.after in
    let (q, e, before, after) =
      insert_all-cursor (inserted p i) is h.1 (omega (arith, gone, length-layout i h.0)) in
    (
      q,
      rw (insert_lem p i h.0 (omega arith)) e,
      before ∙ append_assoc p.cursor.before (layout i) (code_of is),
      omega (arith, gone, length-layout i h.0, after),
    )

-- Writable instructions, inserted into an array of as many bytes as their sizes add up to, fill it
-- exactly: nothing is written outside of it, and it holds the code of the instructions in order.
pub insert_all-fresh :
    (is : List Instruction) (bytes : List ℕ)
    → All IsWritable is
    → length bytes ≡ bytes_of is
    → cursor_of (insert_all (fresh bytes) is) ≡ some (record { before = code_of is; after = [] })
insert_all-fresh is bytes h size =
    let (q, e, before, after) = insert_all-cursor (fresh bytes) is h (omega arith) in
    rw e (filled q.cursor before (omega arith))
  where
    filled :
        (c : Cursor)
        → c.before ≡ code_of is
        → length c.after ≡ 0
        → some c ≡ some (record { before = code_of is; after = [] })
    filled c e z = ground (arith, empty_of_length c.after z)

-- Of writable instructions whose sizes add up to more than the bytes that are left, some instruction
-- would be written past the end of the array.
pub insert_all-small :
    (p : Program) (is : List Instruction)
    → All IsWritable is
    → length p.cursor.after < bytes_of is
    → insert_all p is ≡ none
unfolding insert_all insert
insert_all-small p [] h small = absurd (omega arith)
insert_all-small p (i ∷ is) h small = elim (dec_lt (length p.cursor.after) (size_in_bytes i)) [
  | yes full ↦ rw (emit_overflow p.cursor i h.0 full) refl
  | no room ↦ rw (emit_in_bounds p.cursor i h.0 (omega arith)) (
      insert_all-small (inserted p i) is h.1
        (omega (arith, length-drop (length (layout i)) p.cursor.after, length-layout i h.0)))
]

-- The pointers of a branch that are to be calculated later: to the two targets that are not bytes.
abbrev pub target_pointer : JumpType → ℕ → List ℕ
target_pointer JumpType.to_byte at = []
target_pointer kind at = at ∷ []

abbrev pub branch_pointers : ℕ → JumpType → JumpType → List ℕ
branch_pointers start kind_truth kind_false =
    target_pointer kind_truth (start + 6) ++ target_pointer kind_false (start + 10)

abbrev pub is_absolute : JumpType → Bool
is_absolute JumpType.absolute = true
is_absolute kind = false

truth_at : (n : ℕ) → n + sizeof_byte + sizeof_bool + sizeof_int ≡ n + 6
truth_at n = omega arith

false_at : (n : ℕ) → n + 6 + sizeof_int ≡ n + 10
false_at n = omega arith

-- A branch saves the pointers to those of its two targets that are not bytes, in order: 6 and 10 bytes
-- behind its start. Where the first target is absolute both are saved as absolute, and else both as
-- relative: the type of the second target has no say in that.
pub save_jumps-branch :
    (p : Program) (regc : IntOp) (t f : ℕ) (kind_truth kind_false : JumpType)
    → save_jumps p (Instruction.branch regc t kind_truth f kind_false) ≡ (
        if is_absolute kind_truth
        then record p {
          branches_absolute =
              p.branches_absolute ++ branch_pointers (position p) kind_truth kind_false;
        }
        else record p {
          branches = p.branches ++ branch_pointers (position p) kind_truth kind_false;
        })
unfolding save_jumps save
save_jumps-branch p regc t f JumpType.relative JumpType.relative =
    rw (truth_at (position p), false_at (position p))
      (ap (λ (at : List ℕ). record p { branches = at }) (append_assoc p.branches _ _))
save_jumps-branch p regc t f JumpType.relative JumpType.absolute =
    rw (truth_at (position p), false_at (position p))
      (ap (λ (at : List ℕ). record p { branches = at }) (append_assoc p.branches _ _))
save_jumps-branch p regc t f JumpType.relative JumpType.to_byte = rw (truth_at (position p)) refl
save_jumps-branch p regc t f JumpType.absolute JumpType.relative =
    rw (truth_at (position p), false_at (position p))
      (ap (λ (at : List ℕ). record p { branches_absolute = at })
        (append_assoc p.branches_absolute _ _))
save_jumps-branch p regc t f JumpType.absolute JumpType.absolute =
    rw (truth_at (position p), false_at (position p))
      (ap (λ (at : List ℕ). record p { branches_absolute = at })
        (append_assoc p.branches_absolute _ _))
save_jumps-branch p regc t f JumpType.absolute JumpType.to_byte = rw (truth_at (position p)) refl
save_jumps-branch p regc t f JumpType.to_byte JumpType.relative =
    rw (truth_at (position p), false_at (position p)) refl
save_jumps-branch p regc t f JumpType.to_byte JumpType.absolute =
    rw (truth_at (position p), false_at (position p)) refl
save_jumps-branch p regc t f JumpType.to_byte JumpType.to_byte =
    ap (λ (at : List ℕ). record p { branches = at }) (sym (append-nil p.branches))
