-- ===== src/Cpu/Machine/Decoding.antt =====
-- src/cg/bytecode/instructions.cpp and src/cpu/instr: the CPU reads the operands that the assembler wrote.
use viuavm.Common.{
  ℕ, zero, suc, ◌+◌, ◌*◌, ◌/◌, ◌%◌, ◌<◌, ◌≡◌, refl, sym, ap, ◌∙◌, subst, Bool, true, false, some,
  List, [], ◌∷◌, ◌++◌, length, append_assoc, append-nil, arith, Text, All, Option-cases, inl, inr,
}
use viuavm.Common.Throw.{ok}
use viuavm.Bytecode.Opcode.{Opcode, to_byte, of_byte, of_byte-to_byte}
use viuavm.Bytecode.Cursor.{Cursor, put, write, int_bytes, bool_byte}
use viuavm.Bytecode.Encode.{
  IntOp, operand_bytes, c_string_bytes, insert_three_integer_ops_instruction, insert_three-write,
  named-write,
}
use viuavm.Bytecode.Encode.Control.{call}
use viuavm.Cpu.Machine.{Cpu, Address, ◌>>=◌, >>=_ok, pure, read, deref}
use viuavm.Cpu.Machine.Operands.{read_bool, read_int, operand, c_string, longest_string, text_at}
use viuavm.Cpu.Instructions.{three_operands}

-- The bytes from an address on.
abbrev pub Holds : (Address → ℕ) → Address → List ℕ → Type 0
Holds memory a [] = Unit
Holds memory a (b ∷ bs) = (memory a ≡ b) × Holds memory (a + 1) bs

pub Holds-append :
    (memory : Address → ℕ) (a : Address) (xs ys : List ℕ)
    → Holds memory a (xs ++ ys)
    → Holds memory (a + length xs) ys
Holds-append memory a [] ys h = subst (λ i. Holds memory i ys) (omega arith) h
Holds-append memory a (x ∷ xs) ys h =
    subst (λ i. Holds memory i ys) (omega arith) (Holds-append memory (a + 1) xs ys h.1)

Holds-prefix :
    (memory : Address → ℕ) (a : Address) (xs ys : List ℕ)
    → Holds memory a (xs ++ ys)
    → Holds memory a xs
Holds-prefix memory a [] ys h = tt
Holds-prefix memory a (x ∷ xs) ys h = (h.0, Holds-prefix memory (a + 1) xs ys h.1)

put-before : (p q : Cursor) (b : ℕ) → put p b ≡ some q → q.before ≡ p.before ++ b ∷ []
unfolding put
put-before p q b h = ground arith

-- A number of 32 bits from its four bytes.
int_of_bytes :
    (n : ℕ)
    → n < 4294967296
    → n % 256 + n / 256 % 256 * 256 + n / 65536 % 256 * 65536 + n / 16777216 % 256 * 16777216 ≡ n
int_of_bytes n h = omega arith

read_int-int_bytes :
    (memory : Address → ℕ) (a : Address) (n : ℕ)
    → n < 4294967296
    → Holds memory a (int_bytes n)
    → read_int memory a ≡ n
unfolding read_int int_bytes
read_int-int_bytes memory a n h (e₀, (e₁, (e₂, (e₃, _)))) =
    let third : memory (a + 2) ≡ n / 65536 % 256 = ap memory (omega arith) ∙ e₂ in
    let fourth : memory (a + 3) ≡ n / 16777216 % 256 = ap memory (omega arith) ∙ e₃ in
    rw (e₀, e₁, third, fourth) (int_of_bytes n h)

c_string_lem :
    (memory : Address → ℕ) (rounds : ℕ) (a : Address) (s : Text)
    → All (λ c. 0 < c) s
    → length s < rounds
    → Holds memory a (s ++ 0 ∷ [])
    → c_string memory rounds a ≡ some s
unfolding c_string
c_string_lem memory zero a s p h held = absurd (omega arith)
c_string_lem memory (suc rounds) a [] p h held = ground (arith, held.0)
c_string_lem memory (suc rounds) a (c ∷ s) p h held =
    ground (arith, held.0, p.0, c_string_lem memory rounds (a + 1) s p.1 (omega arith) held.1)

read_bool-bool_byte :
    (memory : Address → ℕ) (a : Address) (b : Bool)
    → memory a ≡ bool_byte b
    → read_bool memory a ≡ b
unfolding read_bool bool_byte
read_bool-bool_byte memory a true e = rw e refl
read_bool-bool_byte memory a false e = rw e refl

pub operand-operand_bytes :
    (s : Cpu) (a : Address) (x : IntOp)
    → x.1 < 4294967296
    → Holds s.memory a (operand_bytes x)
    → operand a s ≡ ok (x, s)
unfolding operand operand_bytes read pure ◌>>=◌
operand-operand_bytes s a (ref, num) h held =
    rw (read_bool-bool_byte s.memory a ref held.0, read_int-int_bytes s.memory (a + 1) num h held.1)
      refl

pub text_at-c_string_bytes :
    (s : Cpu) (a : Address) (t : Text)
    → All (λ c. 0 < c) t
    → length t < 65536
    → Holds s.memory a (c_string_bytes t)
    → text_at a s ≡ ok (t, s)
unfolding text_at c_string_bytes longest_string read deref ◌>>=◌
text_at-c_string_bytes s a t p h held = rw (c_string_lem s.memory 65536 a t p h held) refl

write-before : (p q : Cursor) (bs : List ℕ) → write p bs ≡ some q → q.before ≡ p.before ++ bs
unfolding write
write-before p q [] h = ground (arith, append-nil p.before)
write-before p q (b ∷ bs) h = elim (Option-cases (put p b)) [
  | inl e ↦ absurd (ground (arith, e))
  | inr (r, e) ↦
      ground (arith, put-before p r b e, write-before r q bs, append_assoc p.before (b ∷ []) bs)
]

-- Where the bytes of an instruction are, once the buffer has been loaded.
pub Holds-written :
    (memory : Address → ℕ) (base : Address) (p q : Cursor) (bs : List ℕ)
    → write p bs ≡ some q
    → Holds memory base q.before
    → Holds memory (base + length p.before) bs
Holds-written memory base p q bs h held =
    Holds-append memory base p.before bs (subst (Holds memory base) (write-before p q bs h) held)

pub Holds-operand :
    (memory : Address → ℕ) (a : Address) (x : IntOp) (bs : List ℕ)
    → Holds memory a (operand_bytes x ++ bs)
    → Holds memory (a + 5) bs
unfolding operand_bytes int_bytes
Holds-operand memory a (ref, num) bs h = Holds-append memory a (operand_bytes (ref, num)) bs h

pub operand-first :
    (s : Cpu) (a : Address) (x : IntOp) (bs : List ℕ)
    → x.1 < 4294967296
    → Holds s.memory a (operand_bytes x ++ bs)
    → operand a s ≡ ok (x, s)
operand-first s a x bs h held =
    operand-operand_bytes s a x h (Holds-prefix s.memory a (operand_bytes x) bs held)

-- The operands of an instruction with three of them.
three_operands_lem :
    (s : Cpu) (a : Address) (x y z : IntOp)
    → x.1 < 4294967296
    → y.1 < 4294967296
    → z.1 < 4294967296
    → Holds s.memory a (operand_bytes x ++ (operand_bytes y ++ operand_bytes z))
    → three_operands a s ≡ ok ((x, (y, z)), s)
unfolding three_operands pure
three_operands_lem s a x y z hx hy hz held =
    let rest = Holds-operand s.memory a x (operand_bytes y ++ operand_bytes z) held in
    let last : Holds s.memory (a + 10) (operand_bytes z) =
      subst (λ i. Holds s.memory i (operand_bytes z)) (omega arith)
        (Holds-operand s.memory (a + 5) y (operand_bytes z) rest) in
    >>=_ok (operand a) _ s x s (operand-first s a x _ hx held)
    ∙ >>=_ok (operand (a + 5)) _ s y s (operand-first s (a + 5) y _ hy rest)
    ∙ >>=_ok (operand (a + 10)) _ s z s (operand-operand_bytes s (a + 10) z hz last)

-- An instruction with three operands that the assembler has written into its buffer: where the buffer
-- is loaded, the CPU finds the opcode and the three operands. The numbers have 32 bits.
pub three_operands-insert_three :
    (s : Cpu) (base : Address) (p q : Cursor) (op : Opcode) (x y z : IntOp)
    → insert_three_integer_ops_instruction p op x y z ≡ some q
    → Holds s.memory base q.before
    → x.1 < 4294967296
    → y.1 < 4294967296
    → z.1 < 4294967296
    → (of_byte (s.memory (base + length p.before)) ≡ some op)
      × (three_operands (base + length p.before + 1) s ≡ ok ((x, (y, z)), s))
three_operands-insert_three s base p q op x y z written held hx hy hz =
    let found =
      Holds-written s.memory base p q _ (sym (insert_three-write p op x y z) ∙ written) held in
    (
      ap of_byte found.0 ∙ of_byte-to_byte op,
      three_operands_lem s (base + length p.before + 1) x y z hx hy hz found.1,
    )

-- A `call` that the assembler has written into its buffer: where the buffer is loaded, the CPU finds
-- the opcode, the register of the result, and the name of the function. The number has 32 bits, and
-- the name is shorter than 65536 characters, none of which is a NUL.
pub operand-call :
    (s : Cpu) (base : Address) (p q : Cursor) (reg : IntOp) (fn_name : Text)
    → call p reg fn_name ≡ some q
    → Holds s.memory base q.before
    → reg.1 < 4294967296
    → All (λ c. 0 < c) fn_name
    → length fn_name < 65536
    → (of_byte (s.memory (base + length p.before)) ≡ some Opcode.call)
      × ((operand (base + length p.before + 1) s ≡ ok (reg, s))
          × (text_at (base + length p.before + 6) s ≡ ok (fn_name, s)))
unfolding call
operand-call s base p q reg fn_name written held hreg plain short =
    let found =
      Holds-written s.memory base p q _
        (sym (named-write p (to_byte Opcode.call) reg fn_name) ∙ written) held in
    let name : Holds s.memory (base + length p.before + 6) (c_string_bytes fn_name) =
      subst (λ i. Holds s.memory i (c_string_bytes fn_name)) (omega arith)
        (Holds-operand s.memory (base + length p.before + 1) reg _ found.1) in
    (
      ap of_byte found.0 ∙ of_byte-to_byte Opcode.call,
      (
        operand-first s (base + length p.before + 1) reg _ hreg found.1,
        text_at-c_string_bytes s (base + length p.before + 6) fn_name plain short name,
      ),
    )
