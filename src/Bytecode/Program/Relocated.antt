-- ===== src/Bytecode/Program/Relocated.antt =====
-- Inserting instructions and relocating the jumps that were saved.
use viuavm.Common.{
  ◌∙◌, length-append, length-drop, ◌<◌, ◌≤◌, length, All, append_assoc, ap, List, arith, ℕ, refl,
  append-nil, sym, ◌+◌, map, ◌++◌, ◌≡◌, [], ◌∷◌, some,
}
use viuavm.Common.Throw.{ok}
use viuavm.Bytecode.Instruction.{Instruction, JumpType}
use viuavm.Bytecode.Instruction.Layout.{layout, IsEncodable, IsWritable, size_in_bytes}
use viuavm.Bytecode.Instruction.Emit.{length-layout}
use viuavm.Bytecode.Program.{Program, save, save_jumps, insert_all, position}
use viuavm.Bytecode.Program.Walk.{code_of, bytes_of}
use viuavm.Bytecode.Program.Insert.{fresh, inserted, insert_lem}
use viuavm.Bytecode.Program.Offset.{instruction_count}
use viuavm.Bytecode.Program.Jumps.{calculate_jumps}
use viuavm.Bytecode.Program.Relocation.{
  sites, all_sites, HasTargets, relocated, with_offset, relocate_rest,
}

one_site : (n m : ℕ) (bs : List ℕ) → n ≡ m → bs ++ n ∷ [] ≡ bs ++ m ∷ []
one_site n m bs e = ap (λ k. bs ++ k ∷ []) e

two_sites :
    (n m k l : ℕ) (bs : List ℕ) → n ≡ m → k ≡ l → (bs ++ n ∷ []) ++ k ∷ [] ≡ bs ++ m ∷ l ∷ []
two_sites n m k l bs e e' = rw (e, e') (append_assoc bs (m ∷ []) (l ∷ []))

-- The relative jumps of an instruction are saved at their places in the program.
save_jumps-sites :
    (p : Program) (i : Instruction)
    → (save_jumps p i).branches ≡ p.branches ++ map (λ k. position p + k) (sites i)
unfolding save_jumps save
save_jumps-sites p (Instruction.jump a JumpType.relative) = refl
save_jumps-sites p (Instruction.jump a JumpType.absolute) = sym (append-nil _)
save_jumps-sites p (Instruction.jump a JumpType.to_byte) = sym (append-nil _)
save_jumps-sites p (Instruction.branch r t JumpType.relative f JumpType.to_byte) =
    one_site _ _ _ (omega arith)
save_jumps-sites p (Instruction.branch r t JumpType.relative f JumpType.relative) =
    two_sites _ _ _ _ _ (omega arith) (omega arith)
save_jumps-sites p (Instruction.branch r t JumpType.relative f JumpType.absolute) =
    two_sites _ _ _ _ _ (omega arith) (omega arith)
save_jumps-sites p (Instruction.branch r t JumpType.to_byte f JumpType.to_byte) = sym (append-nil _)
save_jumps-sites p (Instruction.branch r t JumpType.to_byte f JumpType.relative) =
    one_site _ _ _ (omega arith)
save_jumps-sites p (Instruction.branch r t JumpType.to_byte f JumpType.absolute) =
    one_site _ _ _ (omega arith)
save_jumps-sites p (Instruction.branch r t JumpType.absolute f JumpType.to_byte) =
    sym (append-nil _)
save_jumps-sites p (Instruction.branch r t JumpType.absolute f JumpType.relative) =
    sym (append-nil _)
save_jumps-sites p (Instruction.branch r t JumpType.absolute f JumpType.absolute) =
    sym (append-nil _)
save_jumps-sites p _ = sym (append-nil _)

insert_all-sites :
    (p : Program) (is : List Instruction)
    → All IsWritable is
    → bytes_of is ≤ length p.cursor.after
    → (q : Program) × (insert_all p is ≡ some q)
      × (q.cursor.before ≡ p.cursor.before ++ code_of is)
      × (q.branches ≡ p.branches ++ all_sites (position p) is)
unfolding insert_all
insert_all-sites p [] h room = (p, refl, sym (append-nil _), sym (append-nil _))
insert_all-sites p (i ∷ is) h room =
    let p' = inserted p i in
    let gone = length-drop (length (layout i)) p.cursor.after in
    let size = length-layout i h.0 in
    let (q, e, before, saved) = insert_all-sites p' is h.1 (omega (arith, gone, size)) in
    let moved : position p' ≡ position p + size_in_bytes i =
      omega (arith, length-append p.cursor.before (layout i), size) in
    (
      q,
      rw (insert_lem p i h.0 (omega arith)) e,
      before ∙ append_assoc p.cursor.before (layout i) (code_of is),
      saved
          ∙ ap (λ bs. bs ++ all_sites (position p') is) (save_jumps-sites p i)
          ∙ append_assoc p.branches (map (λ k. position p + k) (sites i))
              (all_sites (position p') is)
          ∙ ap (λ n. p.branches ++ (map (λ k. position p + k) (sites i) ++ all_sites n is)) moved,
    )

-- Instructions that are writable, have no NUL in their names and jump to indices of instructions, are
-- inserted into a fresh array with room for them; then `calculateJumps`, on the relative jumps that were
-- saved, leaves the code of the same instructions with the index in each of those jumps replaced by
-- `offset` and the number of bytes before the instruction with that index, modulo 2^32.
pub calculate_jumps-insert_all :
    (offset : ℕ) (is : List Instruction) (bytes : List ℕ)
    → length is < 2147483648
    → All IsEncodable is
    → All (HasTargets (length is)) is
    → All IsWritable is
    → bytes_of is ≤ length bytes
    → (q : Program) × (insert_all (fresh bytes) is ≡ some q)
      × (calculate_jumps q.cursor.before (with_offset offset q.branches)
          ≡ ok (code_of (map (relocated offset is) is)))
unfolding calculate_jumps
calculate_jumps-insert_all offset is bytes small h targets w room =
    let (q, e, before, saved) = insert_all-sites (fresh bytes) is w room in
    (
      q,
      e,
      rw (before, saved)
          (relocate_rest (instruction_count (code_of is)) offset is small is [] targets (refl, h)),
    )
