-- ===== src/Bytecode/Program/Relocation.antt =====
-- The relative jumps in a sequence of instructions, and `calculateJumps` on all of them.
use viuavm.Common.{
  subst, sym, map-append, append_assoc, length-append, refl, ◌∙◌, arith, ap, ◌%◌, take, ◌++◌,
  length, All, ◌≡◌, ◌+◌, ◌<◌, map, ℕ, List, [], ◌∷◌,
}
use viuavm.Common.Throw.{ok, ◌>>=◌}
use viuavm.Bytecode.Cursor.{int_bytes}
use viuavm.Bytecode.Opcode.{to_byte, Opcode}
use viuavm.Bytecode.Tables.{op_size}
use viuavm.Bytecode.Encode.{operand_bytes}
use viuavm.Bytecode.Instruction.{Instruction, JumpType}
use viuavm.Bytecode.Instruction.Layout.{
  layout, opcode, operands, names, name_bytes, IsEncodable, size_in_bytes,
}
use viuavm.Bytecode.Program.Walk.{code_of, bytes_of, length-code_of}
use viuavm.Bytecode.Program.Jumps.{calculate_loop}
use viuavm.Bytecode.Program.Targets.{
  sizes, same_sizes-bytes_of, same_sizes-length, code_of-append, calculate_jump-code,
}

-- The target words of an instruction that `branches` gets, by their distance from its first byte.
abbrev pub sites : Instruction → List ℕ
sites (Instruction.jump addr JumpType.relative) = 1 ∷ []
sites (Instruction.branch regc t JumpType.relative f JumpType.to_byte) = 6 ∷ []
sites (Instruction.branch regc t JumpType.relative f kind) = 6 ∷ 10 ∷ []
sites (Instruction.branch regc t JumpType.to_byte f JumpType.to_byte) = []
sites (Instruction.branch regc t JumpType.to_byte f kind) = 10 ∷ []
sites _ = []

-- Those of a sequence that starts at the byte `at`.
abbrev pub all_sites : ℕ → List Instruction → List ℕ
all_sites at [] = []
all_sites at (i ∷ is) = map (λ k. at + k) (sites i) ++ all_sites (at + size_in_bytes i) is

-- The instruction indices in those words are below the number of instructions.
abbrev pub HasTargets : ℕ → Instruction → Type 0
HasTargets n (Instruction.jump addr JumpType.relative) = addr < n
HasTargets n (Instruction.branch regc t JumpType.relative f JumpType.to_byte) = t < n
HasTargets n (Instruction.branch regc t JumpType.relative f kind) = (t < n) × (f < n)
HasTargets n (Instruction.branch regc t JumpType.to_byte f JumpType.to_byte) = Unit
HasTargets n (Instruction.branch regc t JumpType.to_byte f kind) = f < n
HasTargets n _ = Unit

module _ (offset : ℕ) (is : List Instruction) where
  -- `offset`, and the number of bytes of the instructions before the one with that index.
  abbrev pub target : ℕ → ℕ
  target n = (offset + bytes_of (take n is)) % 4294967296

  -- An instruction with those words relocated.
  abbrev pub relocated : Instruction → Instruction
  relocated (Instruction.jump addr JumpType.relative) =
      Instruction.jump (target addr) JumpType.relative
  relocated (Instruction.branch regc t JumpType.relative f JumpType.to_byte) =
      Instruction.branch regc (target t) JumpType.relative f JumpType.to_byte
  relocated (Instruction.branch regc t JumpType.relative f kind) =
      Instruction.branch regc (target t) JumpType.relative (target f) kind
  relocated (Instruction.branch regc t JumpType.to_byte f JumpType.to_byte) =
      Instruction.branch regc t JumpType.to_byte f JumpType.to_byte
  relocated (Instruction.branch regc t JumpType.to_byte f kind) =
      Instruction.branch regc t JumpType.to_byte (target f) kind
  relocated i = i

abbrev pub with_offset : ℕ → List ℕ → List (ℕ × ℕ)
with_offset offset = map (λ k. (k, offset))

-- The other instructions in place of one.
replace-sizes :
    (done rest : List Instruction) (i j : Instruction)
    → size_in_bytes i ≡ size_in_bytes j
    → sizes (done ++ i ∷ rest) ≡ sizes (done ++ j ∷ rest)
replace-sizes [] rest i j e = ap (λ n. n ∷ sizes rest) e
replace-sizes (k ∷ done) rest i j e =
    ap (λ ns. size_in_bytes k ∷ ns) (replace-sizes done rest i j e)

replace-IsEncodable :
    (done rest : List Instruction) (i j : Instruction)
    → IsEncodable j
    → All IsEncodable (done ++ i ∷ rest)
    → All IsEncodable (done ++ j ∷ rest)
replace-IsEncodable [] rest i j e h = (e, h.1)
replace-IsEncodable (k ∷ done) rest i j e h = (h.0, replace-IsEncodable done rest i j e h.1)

module _ (count offset : ℕ) (is : List Instruction) (small : length is < 2147483648) where
  -- As long as `is`, instruction by instruction.
  abbrev pub IsLike : List Instruction → Type 0
  IsLike js = (sizes js ≡ sizes is) × All IsEncodable js

  -- One word, at `k` bytes from the start of the instruction `i`.
  relocate_word :
      (n : ℕ) (done rest : List Instruction) (i j : Instruction) (pre post : List ℕ)
      (later : List (ℕ × ℕ))
      → n < length is
      → IsLike (done ++ i ∷ rest)
      → layout i ≡ pre ++ (int_bytes n ++ post)
      → layout j ≡ pre ++ (int_bytes (target offset is n) ++ post)
      → calculate_loop count
          (code_of (done ++ i ∷ rest))
          ((length (code_of done) + length pre, offset) ∷ later)
        ≡ calculate_loop count (code_of (done ++ j ∷ rest)) later
  unfolding calculate_loop
  relocate_word n done rest i j pre post later inside like e e' =
      ap (λ r. r >>= λ next. calculate_loop count next later)
        (calculate_jump-code count offset n done rest i j pre post (omega arith)
          (omega (arith, same_sizes-length (done ++ i ∷ rest) is like.0)) like.1 e
          (rw (same_sizes-bytes_of n (done ++ i ∷ rest) is like.0) e'))

  IsLike-replaced :
      (done rest : List Instruction) (i j : Instruction)
      → IsLike (done ++ i ∷ rest)
      → size_in_bytes j ≡ size_in_bytes i
      → IsEncodable j
      → IsLike (done ++ j ∷ rest)
  IsLike-replaced done rest i j like e h =
      (replace-sizes done rest j i e ∙ like.0, replace-IsEncodable done rest i j h like.1)

  -- All words of one instruction.
  relocate_instruction :
      (i : Instruction) (done rest : List Instruction) (later : List (ℕ × ℕ))
      → HasTargets (length is) i
      → IsLike (done ++ i ∷ rest)
      → calculate_loop count
          (code_of (done ++ i ∷ rest))
          (with_offset offset (map (λ k. length (code_of done) + k) (sites i)) ++ later)
        ≡ calculate_loop count (code_of (done ++ relocated offset is i ∷ rest)) later
  unfolding opcode operands operand_bytes int_bytes op_size name_bytes names
  relocate_instruction (Instruction.jump a JumpType.relative) done rest later h like =
      relocate_word a done rest _ _ (to_byte Opcode.jump ∷ []) [] later h like refl refl
  relocate_instruction (Instruction.branch r t JumpType.relative f JumpType.to_byte) done rest later
        h like =
      relocate_word t done rest _ _ (to_byte Opcode.branch ∷ operand_bytes r) (int_bytes f) later h
        like refl refl
  relocate_instruction (Instruction.branch r t JumpType.relative f JumpType.relative) done rest
        later h like =
      let first = Instruction.branch r (target offset is t) JumpType.relative f JumpType.relative in
      relocate_word t done rest _ first (to_byte Opcode.branch ∷ operand_bytes r) (int_bytes f) _
        h.0 like refl refl
      ∙ relocate_word f done rest first _
          (to_byte Opcode.branch ∷ (operand_bytes r ++ int_bytes (target offset is t))) [] later h.1
          (IsLike-replaced done rest _ first like refl (tt, tt)) refl refl
  relocate_instruction (Instruction.branch r t JumpType.relative f JumpType.absolute) done rest
        later h like =
      let first = Instruction.branch r (target offset is t) JumpType.relative f JumpType.absolute in
      relocate_word t done rest _ first (to_byte Opcode.branch ∷ operand_bytes r) (int_bytes f) _
        h.0 like refl refl
      ∙ relocate_word f done rest first _
          (to_byte Opcode.branch ∷ (operand_bytes r ++ int_bytes (target offset is t))) [] later h.1
          (IsLike-replaced done rest _ first like refl (tt, tt)) refl refl
  relocate_instruction (Instruction.branch r t JumpType.to_byte f JumpType.relative) done rest later
        h like =
      relocate_word f done rest _ _ (to_byte Opcode.branch ∷ (operand_bytes r ++ int_bytes t)) []
        later h like refl refl
  relocate_instruction (Instruction.branch r t JumpType.to_byte f JumpType.absolute) done rest later
        h like =
      relocate_word f done rest _ _ (to_byte Opcode.branch ∷ (operand_bytes r ++ int_bytes t)) []
        later h like refl refl
  relocate_instruction (Instruction.jump a JumpType.absolute) done rest later h like = refl
  relocate_instruction (Instruction.jump a JumpType.to_byte) done rest later h like = refl
  relocate_instruction (Instruction.branch r t JumpType.absolute f k) done rest later h like = refl
  relocate_instruction (Instruction.branch r t JumpType.to_byte f JumpType.to_byte) done rest later
        h like =
      refl
  relocate_instruction _ done rest later h like = refl

  relocated-size : (i : Instruction) → size_in_bytes (relocated offset is i) ≡ size_in_bytes i
  unfolding opcode op_size name_bytes names
  relocated-size (Instruction.jump a JumpType.relative) = refl
  relocated-size (Instruction.branch r t JumpType.relative f JumpType.to_byte) = refl
  relocated-size (Instruction.branch r t JumpType.relative f JumpType.relative) = refl
  relocated-size (Instruction.branch r t JumpType.relative f JumpType.absolute) = refl
  relocated-size (Instruction.branch r t JumpType.to_byte f JumpType.to_byte) = refl
  relocated-size (Instruction.branch r t JumpType.to_byte f JumpType.relative) = refl
  relocated-size (Instruction.branch r t JumpType.to_byte f JumpType.absolute) = refl
  relocated-size _ = refl

  relocated-IsEncodable : (i : Instruction) → IsEncodable i → IsEncodable (relocated offset is i)
  unfolding names
  relocated-IsEncodable (Instruction.jump a JumpType.relative) h = (tt, tt)
  relocated-IsEncodable (Instruction.branch r t JumpType.relative f JumpType.to_byte) h = (tt, tt)
  relocated-IsEncodable (Instruction.branch r t JumpType.relative f JumpType.relative) h = (tt, tt)
  relocated-IsEncodable (Instruction.branch r t JumpType.relative f JumpType.absolute) h = (tt, tt)
  relocated-IsEncodable (Instruction.branch r t JumpType.to_byte f JumpType.to_byte) h = (tt, tt)
  relocated-IsEncodable (Instruction.branch r t JumpType.to_byte f JumpType.relative) h = (tt, tt)
  relocated-IsEncodable (Instruction.branch r t JumpType.to_byte f JumpType.absolute) h = (tt, tt)
  relocated-IsEncodable _ h = h

  IsEncodable-middle :
      (done rest : List Instruction) (i : Instruction)
      → All IsEncodable (done ++ i ∷ rest)
      → IsEncodable i
  IsEncodable-middle [] rest i h = h.0
  IsEncodable-middle (k ∷ done) rest i h = IsEncodable-middle done rest i h.1

  -- All instructions behind those that are done.
  pub relocate_rest :
      (rest done : List Instruction)
      → All (HasTargets (length is)) rest
      → IsLike (done ++ rest)
      → calculate_loop count
          (code_of (done ++ rest))
          (with_offset offset (all_sites (length (code_of done)) rest))
        ≡ ok (code_of (done ++ map (relocated offset is) rest))
  relocate_rest [] done h like = unfold calculate_loop in refl
  relocate_rest (i ∷ rest) done h like =
      let j = relocated offset is i in
      let encodable = relocated-IsEncodable i (IsEncodable-middle done rest i like.1) in
      let like' = IsLike-replaced done rest i j like (relocated-size i) encodable in
      let at = length (code_of done) in
      let regroup = append_assoc done (j ∷ []) in
      ap (calculate_loop count (code_of (done ++ i ∷ rest))) (
        map-append (λ k. (k, offset)) (map (λ k. at + k) (sites i))
          (all_sites (at + size_in_bytes i) rest))
      ∙ relocate_instruction i done rest _ h.0 like
      ∙ ap
          (λ k.
            calculate_loop count (code_of (done ++ j ∷ rest))
              (with_offset offset (all_sites k rest)))
          (next_byte i done encodable)
      ∙ ap
          (λ js.
            calculate_loop count (code_of js)
              (with_offset offset (all_sites (length (code_of (done ++ j ∷ []))) rest)))
          (sym (regroup rest))
      ∙ relocate_rest rest (done ++ j ∷ []) h.1 (subst IsLike (sym (regroup rest)) like')
      ∙ ap (λ js. ok (code_of js)) (regroup (map (relocated offset is) rest))
    where
      next_byte :
          (i : Instruction) (done : List Instruction)
          → IsEncodable (relocated offset is i)
          → length (code_of done) + size_in_bytes i
            ≡ length (code_of (done ++ relocated offset is i ∷ []))
      next_byte i done e = omega (
        arith,
        ap length (code_of-append done (relocated offset is i ∷ [])),
        length-append (code_of done) (code_of (relocated offset is i ∷ [])),
        length-code_of (relocated offset is i ∷ []) (e, tt),
        relocated-size i,
      )
