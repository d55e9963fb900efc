-- ===== src/Bytecode/Program/Targets.antt =====
-- `calculateJumps` on one word in the code of instructions.
use viuavm.Common.{
  length-append, append_assoc, length-map, All, sym, ◌∙◌, map, drop-plus_append, take-length_append,
  drop-length_append, lt→ltb, ◌%◌, arith, refl, ◌+◌, ap, some, length, ◌≡◌, ◌++◌, take, ◌<◌, List,
  ℕ, zero, suc, [], ◌∷◌,
}
use viuavm.Common.Throw.{ok}
use viuavm.Bytecode.Cursor.{int_bytes}
use viuavm.Bytecode.Instruction.{Instruction}
use viuavm.Bytecode.Instruction.Layout.{layout, IsEncodable, size_in_bytes}
use viuavm.Bytecode.Program.Walk.{code_of, bytes_of, offset-code}
use viuavm.Bytecode.Program.Offset.{Index, get_instruction_bytecode_offset}
use viuavm.Bytecode.Program.Jumps.{int_at_front, read_int, write_int, index_of, calculate_jump}

-- Words of 32 bits, below 2^31 where they are indices.
abbrev pub IsIndex : ℕ → Type 0
IsIndex n = n < 2147483648

int_at_front-int_bytes :
    (n : ℕ) (rest : List ℕ) → n < 4294967296 → int_at_front (int_bytes n ++ rest) ≡ ok n
unfolding int_at_front int_bytes
int_at_front-int_bytes n rest h = ap ok (omega arith)

-- One patch of a word behind `xs`.
calculate_jump-word :
    (count offset n adjustment : ℕ) (xs rest : List ℕ)
    → IsIndex n
    → get_instruction_bytecode_offset
        (xs ++ (int_bytes n ++ rest))
        (Index.from_start n)
        (some count)
      ≡ ok adjustment
    → calculate_jump count (xs ++ (int_bytes n ++ rest)) (length xs, offset)
      ≡ ok (xs ++ (int_bytes ((offset + adjustment) % 4294967296) ++ rest))
unfolding calculate_jump read_int write_int index_of
calculate_jump-word count offset n adjustment xs rest small found =
    rw
      (
        drop-length_append xs (int_bytes n ++ rest),
        int_at_front-int_bytes n rest (omega arith),
        lt→ltb n 2147483648 small,
        found,
        take-length_append xs (int_bytes n ++ rest),
        drop-plus_append 4 xs (int_bytes n ++ rest),
      )
      (unfold int_bytes in refl)

abbrev pub sizes : List Instruction → List ℕ
sizes is = map size_in_bytes is

abbrev sum : List ℕ → ℕ
sum [] = 0
sum (n ∷ ns) = n + sum ns

bytes_of-take : (n : ℕ) (is : List Instruction) → bytes_of (take n is) ≡ sum (take n (sizes is))
bytes_of-take zero is = refl
bytes_of-take (suc n) [] = refl
bytes_of-take (suc n) (i ∷ is) = ap (λ m. size_in_bytes i + m) (bytes_of-take n is)

pub same_sizes-bytes_of :
    (n : ℕ) (is js : List Instruction)
    → sizes is ≡ sizes js
    → bytes_of (take n is) ≡ bytes_of (take n js)
same_sizes-bytes_of n is js e =
    bytes_of-take n is ∙ ap (λ ns. sum (take n ns)) e ∙ sym (bytes_of-take n js)

pub same_sizes-length : (is js : List Instruction) → sizes is ≡ sizes js → length is ≡ length js
same_sizes-length is js e =
    sym (length-map is size_in_bytes) ∙ ap length e ∙ length-map js size_in_bytes

pub code_of-append : (is js : List Instruction) → code_of (is ++ js) ≡ code_of is ++ code_of js
code_of-append [] js = refl
code_of-append (i ∷ is) js =
    ap (λ c. layout i ++ c) (code_of-append is js)
    ∙ sym (append_assoc (layout i) (code_of is) (code_of js))

-- The code around a word of one instruction.
code_of-word :
    (done rest : List Instruction) (i : Instruction) (pre w post : List ℕ)
    → layout i ≡ pre ++ (w ++ post)
    → code_of (done ++ i ∷ rest) ≡ (code_of done ++ pre) ++ (w ++ (post ++ code_of rest))
code_of-word done rest i pre w post e =
    code_of-append done (i ∷ rest)
    ∙ ap (λ c. code_of done ++ (c ++ code_of rest)) e
    ∙ ap (λ c. code_of done ++ c)
        (append_assoc pre (w ++ post) (code_of rest)
          ∙ ap (λ c. pre ++ c) (append_assoc w post (code_of rest)))
    ∙ sym (append_assoc (code_of done) pre (w ++ (post ++ code_of rest)))

-- One word of one instruction is relocated.
pub calculate_jump-code :
    (count offset n : ℕ) (done rest : List Instruction) (i j : Instruction) (pre post : List ℕ)
    → IsIndex n
    → n < length (done ++ i ∷ rest)
    → All IsEncodable (done ++ i ∷ rest)
    → layout i ≡ pre ++ (int_bytes n ++ post)
    → layout j
      ≡ pre ++ (int_bytes ((offset + bytes_of (take n (done ++ i ∷ rest))) % 4294967296) ++ post)
    → calculate_jump count (code_of (done ++ i ∷ rest)) (length (code_of done) + length pre, offset)
      ≡ ok (code_of (done ++ j ∷ rest))
calculate_jump-code count offset n done rest i j pre post small inside h e e' =
    let before = code_of-word done rest i pre (int_bytes n) post e in
    let after = code_of-word done rest j pre _ post e' in
    ap (λ c. calculate_jump count c (length (code_of done) + length pre, offset)) before
    ∙ ap
        (λ k.
          calculate_jump count ((code_of done ++ pre) ++ (int_bytes n ++ (post ++ code_of rest)))
            (k, offset))
        (sym (length-append (code_of done) pre))
    ∙ calculate_jump-word count offset n (bytes_of (take n (done ++ i ∷ rest)))
        (code_of done ++ pre) (post ++ code_of rest) small
        (ap (λ c. get_instruction_bytecode_offset c (Index.from_start n) (some count)) (sym before)
          ∙ offset-code n (done ++ i ∷ rest) (some count) h inside)
    ∙ ap ok (sym after)
