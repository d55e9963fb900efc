-- ===== src/Bytecode/Opcode.antt =====
-- include/viua/bytecode/opcodes.h and maps.h: the opcodes, their numbers, mnemonics and sizes.
use viuavm.Common.{ℕ, ◌≡◌, refl, Option, some, List, [], ◌∷◌, get_elem?}

pub data Opcode : Type 0 where
  nop izero istore iadd isub imul idiv iinc idec ilt ilte igt igte ieq fstore fadd fsub fmul :
      Opcode
  fdiv flt flte fgt fgte feq bstore badd bsub binc bdec blt blte bgt bgte beq itof ftoi stoi :
      Opcode
  stof strstore streq vec vinsert vpush vpop vat vlen bool not and or move copy ref swap : Opcode
  free empty isnull ress tmpri tmpro print echo clbind closure function fcall frame param : Opcode
  paref call arg argc jump branch throw catch pull try enter leave import link class : Opcode
  prototype derive attach register new msg end halt : Opcode

-- The enumerators count up from NOP = 0.
unfoldable pub to_byte : Opcode → ℕ
to_byte nop = 0
to_byte izero = 1
to_byte istore = 2
to_byte iadd = 3
to_byte isub = 4
to_byte imul = 5
to_byte idiv = 6
to_byte iinc = 7
to_byte idec = 8
to_byte ilt = 9
to_byte ilte = 10
to_byte igt = 11
to_byte igte = 12
to_byte ieq = 13
to_byte fstore = 14
to_byte fadd = 15
to_byte fsub = 16
to_byte fmul = 17
to_byte fdiv = 18
to_byte flt = 19
to_byte flte = 20
to_byte fgt = 21
to_byte fgte = 22
to_byte feq = 23
to_byte bstore = 24
to_byte badd = 25
to_byte bsub = 26
to_byte binc = 27
to_byte bdec = 28
to_byte blt = 29
to_byte blte = 30
to_byte bgt = 31
to_byte bgte = 32
to_byte beq = 33
to_byte itof = 34
to_byte ftoi = 35
to_byte stoi = 36
to_byte stof = 37
to_byte strstore = 38
to_byte streq = 39
to_byte vec = 40
to_byte vinsert = 41
to_byte vpush = 42
to_byte vpop = 43
to_byte vat = 44
to_byte vlen = 45
to_byte bool = 46
to_byte not = 47
to_byte and = 48
to_byte or = 49
to_byte move = 50
to_byte copy = 51
to_byte ref = 52
to_byte swap = 53
to_byte free = 54
to_byte empty = 55
to_byte isnull = 56
to_byte ress = 57
to_byte tmpri = 58
to_byte tmpro = 59
to_byte print = 60
to_byte echo = 61
to_byte clbind = 62
to_byte closure = 63
to_byte function = 64
to_byte fcall = 65
to_byte frame = 66
to_byte param = 67
to_byte paref = 68
to_byte call = 69
to_byte arg = 70
to_byte argc = 71
to_byte jump = 72
to_byte branch = 73
to_byte throw = 74
to_byte catch = 75
to_byte pull = 76
to_byte try = 77
to_byte enter = 78
to_byte leave = 79
to_byte import = 80
to_byte link = 81
to_byte class = 82
to_byte prototype = 83
to_byte derive = 84
to_byte attach = 85
to_byte register = 86
to_byte new = 87
to_byte msg = 88
to_byte end = 89
to_byte halt = 90

-- All enumerators, in order.
abbrev pub opcodes : List Opcode
opcodes =
    nop ∷ izero ∷ istore ∷ iadd ∷ isub ∷ imul ∷ idiv ∷ iinc ∷ idec ∷ ilt ∷ ilte ∷ igt ∷ igte ∷ ieq
    ∷ fstore ∷ fadd ∷ fsub ∷ fmul ∷ fdiv ∷ flt ∷ flte ∷ fgt ∷ fgte ∷ feq ∷ bstore ∷ badd ∷ bsub
    ∷ binc ∷ bdec ∷ blt ∷ blte ∷ bgt ∷ bgte ∷ beq ∷ itof ∷ ftoi ∷ stoi ∷ stof ∷ strstore ∷ streq
    ∷ vec ∷ vinsert ∷ vpush ∷ vpop ∷ vat ∷ vlen ∷ bool ∷ not ∷ and ∷ or ∷ move ∷ copy ∷ ref ∷ swap
    ∷ free ∷ empty ∷ isnull ∷ ress ∷ tmpri ∷ tmpro ∷ print ∷ echo ∷ clbind ∷ closure ∷ function
    ∷ fcall ∷ frame ∷ param ∷ paref ∷ call ∷ arg ∷ argc ∷ jump ∷ branch ∷ throw ∷ catch ∷ pull ∷ try
    ∷ enter ∷ leave ∷ import ∷ link ∷ class ∷ prototype ∷ derive ∷ attach ∷ register ∷ new ∷ msg
    ∷ end ∷ halt ∷ []

-- `OPCODE(b)` with a name in OP_NAMES; any other byte has none.
unfoldable pub of_byte : ℕ → Option Opcode
of_byte b = get_elem? opcodes b

-- A byte read back as an opcode is the opcode that was written.
pub of_byte-to_byte : (op : Opcode) → of_byte (to_byte op) ≡ some op
unfolding of_byte to_byte
of_byte-to_byte nop = refl
of_byte-to_byte _ = refl
