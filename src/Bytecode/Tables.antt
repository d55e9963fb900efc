-- ===== src/Bytecode/Tables.antt =====
-- include/viua/bytecode/maps.h: the size of each instruction, its mnemonic, and which are followed by text.
use Prim.Native.String.{String}
use viuavm.Common.{List, [], ◌∷◌, ℕ, ◌+◌, ◌*◌, Bool, true, false}
use viuavm.Bytecode.Opcode.{Opcode}

-- The sizes on the 64-bit targets that the program is built for.
abbrev pub sizeof_byte : ℕ
sizeof_byte = 1

abbrev pub sizeof_bool : ℕ
sizeof_bool = 1

abbrev pub sizeof_int : ℕ
sizeof_int = 4

abbrev pub sizeof_float : ℕ
sizeof_float = 4

-- The keys of OP_SIZES, in their order there.
unfoldable pub sized_instructions : List String
sized_instructions =
    "nop" ∷ "izero" ∷ "istore" ∷ "iadd" ∷ "isub" ∷ "imul" ∷ "idiv" ∷ "iinc" ∷ "idec" ∷ "ilt"
    ∷ "ilte" ∷ "igt" ∷ "igte" ∷ "ieq" ∷ "fstore" ∷ "fadd" ∷ "fsub" ∷ "fmul" ∷ "fdiv" ∷ "flt"
    ∷ "flte" ∷ "fgt" ∷ "fgte" ∷ "feq" ∷ "bstore" ∷ "badd" ∷ "bsub" ∷ "binc" ∷ "bdec" ∷ "blt"
    ∷ "blte" ∷ "bgt" ∷ "bgte" ∷ "beq" ∷ "itof" ∷ "ftoi" ∷ "stoi" ∷ "stof" ∷ "strstore" ∷ "streq"
    ∷ "vec" ∷ "vinsert" ∷ "vpush" ∷ "vpop" ∷ "vat" ∷ "vlen" ∷ "bool" ∷ "not" ∷ "and" ∷ "or" ∷ "move"
    ∷ "copy" ∷ "ref" ∷ "swap" ∷ "free" ∷ "empty" ∷ "isnull" ∷ "ress" ∷ "tmpri" ∷ "tmpro" ∷ "print"
    ∷ "echo" ∷ "clbind" ∷ "closure" ∷ "function" ∷ "fcall" ∷ "frame" ∷ "param" ∷ "paref" ∷ "call"
    ∷ "arg" ∷ "argc" ∷ "jump" ∷ "branch" ∷ "throw" ∷ "catch" ∷ "pull" ∷ "try" ∷ "enter" ∷ "leave"
    ∷ "import" ∷ "link" ∷ "class" ∷ "prototype" ∷ "derive" ∷ "attach" ∷ "register" ∷ "new" ∷ "msg"
    ∷ "end" ∷ "halt" ∷ []

-- `OP_SIZES.at(OP_NAMES.at(op))`.
unfoldable pub op_size : Opcode → ℕ
op_size Opcode.nop = sizeof_byte
op_size Opcode.izero = sizeof_byte + sizeof_bool + sizeof_int
op_size Opcode.istore = sizeof_byte + 2 * sizeof_bool + 2 * sizeof_int
op_size Opcode.iadd = sizeof_byte + 3 * sizeof_bool + 3 * sizeof_int
op_size Opcode.isub = sizeof_byte + 3 * sizeof_bool + 3 * sizeof_int
op_size Opcode.imul = sizeof_byte + 3 * sizeof_bool + 3 * sizeof_int
op_size Opcode.idiv = sizeof_byte + 3 * sizeof_bool + 3 * sizeof_int
op_size Opcode.iinc = sizeof_byte + sizeof_bool + sizeof_int
op_size Opcode.idec = sizeof_byte + sizeof_bool + sizeof_int
op_size Opcode.ilt = sizeof_byte + 3 * sizeof_bool + 3 * sizeof_int
op_size Opcode.ilte = sizeof_byte + 3 * sizeof_bool + 3 * sizeof_int
op_size Opcode.igt = sizeof_byte + 3 * sizeof_bool + 3 * sizeof_int
op_size Opcode.igte = sizeof_byte + 3 * sizeof_bool + 3 * sizeof_int
op_size Opcode.ieq = sizeof_byte + 3 * sizeof_bool + 3 * sizeof_int
op_size Opcode.fstore = sizeof_byte + sizeof_bool + sizeof_int + sizeof_float
op_size Opcode.fadd = sizeof_byte + 3 * sizeof_bool + 3 * sizeof_int
op_size Opcode.fsub = sizeof_byte + 3 * sizeof_bool + 3 * sizeof_int
op_size Opcode.fmul = sizeof_byte + 3 * sizeof_bool + 3 * sizeof_int
op_size Opcode.fdiv = sizeof_byte + 3 * sizeof_bool + 3 * sizeof_int
op_size Opcode.flt = sizeof_byte + 3 * sizeof_bool + 3 * sizeof_int
op_size Opcode.flte = sizeof_byte + 3 * sizeof_bool + 3 * sizeof_int
op_size Opcode.fgt = sizeof_byte + 3 * sizeof_bool + 3 * sizeof_int
op_size Opcode.fgte = sizeof_byte + 3 * sizeof_bool + 3 * sizeof_int
op_size Opcode.feq = sizeof_byte + 3 * sizeof_bool + 3 * sizeof_int
op_size Opcode.bstore = sizeof_byte + 2 * sizeof_bool + sizeof_int + sizeof_byte
op_size Opcode.badd = sizeof_byte + 3 * sizeof_bool + 3 * sizeof_int
op_size Opcode.bsub = sizeof_byte + 3 * sizeof_bool + 3 * sizeof_int
op_size Opcode.binc = sizeof_byte + sizeof_bool + sizeof_int
op_size Opcode.bdec = sizeof_byte + sizeof_bool + sizeof_int
op_size Opcode.blt = sizeof_byte + 3 * sizeof_bool + 3 * sizeof_int
op_size Opcode.blte = sizeof_byte + 3 * sizeof_bool + 3 * sizeof_int
op_size Opcode.bgt = sizeof_byte + 3 * sizeof_bool + 3 * sizeof_int
op_size Opcode.bgte = sizeof_byte + 3 * sizeof_bool + 3 * sizeof_int
op_size Opcode.beq = sizeof_byte + 3 * sizeof_bool + 3 * sizeof_int
op_size Opcode.itof = sizeof_byte + 2 * sizeof_bool + 2 * sizeof_int
op_size Opcode.ftoi = sizeof_byte + 2 * sizeof_bool + 2 * sizeof_int
op_size Opcode.stoi = sizeof_byte + 2 * sizeof_bool + 2 * sizeof_int
op_size Opcode.stof = sizeof_byte + 2 * sizeof_bool + 2 * sizeof_int
op_size Opcode.strstore = sizeof_byte + sizeof_bool + sizeof_int
op_size Opcode.streq = sizeof_byte + 3 * sizeof_bool + 3 * sizeof_int
op_size Opcode.vec = sizeof_byte + sizeof_bool + sizeof_int
op_size Opcode.vinsert = sizeof_byte + 3 * sizeof_bool + 3 * sizeof_int
op_size Opcode.vpush = sizeof_byte + 2 * sizeof_bool + 2 * sizeof_int
op_size Opcode.vpop = sizeof_byte + 3 * sizeof_bool + 3 * sizeof_int
op_size Opcode.vat = sizeof_byte + 3 * sizeof_bool + 3 * sizeof_int
op_size Opcode.vlen = sizeof_byte + 2 * sizeof_bool + 2 * sizeof_int
op_size Opcode.bool = sizeof_byte + sizeof_bool + sizeof_int
op_size Opcode.not = sizeof_byte + sizeof_bool + sizeof_int
op_size Opcode.and = sizeof_byte + 3 * sizeof_bool + 3 * sizeof_int
op_size Opcode.or = sizeof_byte + 3 * sizeof_bool + 3 * sizeof_int
op_size Opcode.move = sizeof_byte + 2 * sizeof_bool + 2 * sizeof_int
op_size Opcode.copy = sizeof_byte + 2 * sizeof_bool + 2 * sizeof_int
op_size Opcode.ref = sizeof_byte + 2 * sizeof_bool + 2 * sizeof_int
op_size Opcode.swap = sizeof_byte + 2 * sizeof_bool + 2 * sizeof_int
op_size Opcode.free = sizeof_byte + sizeof_bool + sizeof_int
op_size Opcode.empty = sizeof_byte + sizeof_bool + sizeof_int
op_size Opcode.isnull = sizeof_byte + 2 * sizeof_bool + 2 * sizeof_int
op_size Opcode.ress = sizeof_byte + sizeof_int
op_size Opcode.tmpri = sizeof_byte + sizeof_bool + sizeof_int
op_size Opcode.tmpro = sizeof_byte + sizeof_bool + sizeof_int
op_size Opcode.print = sizeof_byte + sizeof_bool + sizeof_int
op_size Opcode.echo = sizeof_byte + sizeof_bool + sizeof_int
op_size Opcode.clbind = sizeof_byte + sizeof_bool + sizeof_int
op_size Opcode.closure = sizeof_byte + sizeof_bool + sizeof_int
op_size Opcode.function = sizeof_byte + sizeof_bool + sizeof_int
op_size Opcode.fcall = sizeof_byte + 2 * sizeof_bool + 2 * sizeof_int
op_size Opcode.frame = sizeof_byte + 2 * sizeof_bool + 2 * sizeof_int
op_size Opcode.param = sizeof_byte + 2 * sizeof_bool + 2 * sizeof_int
op_size Opcode.paref = sizeof_byte + 2 * sizeof_bool + 2 * sizeof_int
op_size Opcode.call = sizeof_byte + sizeof_bool + sizeof_int
op_size Opcode.arg = sizeof_byte + 2 * sizeof_bool + 2 * sizeof_int
op_size Opcode.argc = sizeof_byte + sizeof_bool + sizeof_int
op_size Opcode.jump = sizeof_byte + sizeof_int
op_size Opcode.branch = sizeof_byte + sizeof_bool + 3 * sizeof_int
op_size Opcode.throw = sizeof_byte + sizeof_int + sizeof_bool
op_size Opcode.catch = sizeof_byte
op_size Opcode.pull = sizeof_byte + sizeof_bool + sizeof_int
op_size Opcode.try = sizeof_byte
op_size Opcode.enter = sizeof_byte
op_size Opcode.leave = sizeof_byte
op_size Opcode.import = sizeof_byte
op_size Opcode.link = sizeof_byte
op_size Opcode.class = sizeof_byte + sizeof_bool + sizeof_int
op_size Opcode.prototype = sizeof_byte + sizeof_bool + sizeof_int
op_size Opcode.derive = sizeof_byte + sizeof_bool + sizeof_int
op_size Opcode.attach = sizeof_byte + sizeof_bool + sizeof_int
op_size Opcode.register = sizeof_byte + sizeof_bool + sizeof_int
op_size Opcode.new = sizeof_byte + sizeof_bool + sizeof_int
op_size Opcode.msg = sizeof_byte + sizeof_bool + sizeof_int
op_size Opcode.end = sizeof_byte
op_size Opcode.halt = sizeof_byte

-- `in(OP_VARIABLE_LENGTH, op)`.
unfoldable pub variable_length : Opcode → Bool
variable_length Opcode.strstore = true
variable_length Opcode.closure = true
variable_length Opcode.function = true
variable_length Opcode.call = true
variable_length Opcode.catch = true
variable_length Opcode.enter = true
variable_length Opcode.import = true
variable_length Opcode.link = true
variable_length Opcode.class = true
variable_length Opcode.prototype = true
variable_length Opcode.derive = true
variable_length Opcode.attach = true
variable_length Opcode.new = true
variable_length Opcode.msg = true
variable_length _ = false

-- `OP_NAMES.at(op)`.
unfoldable pub op_name : Opcode → String
op_name Opcode.nop = "nop"
op_name Opcode.izero = "izero"
op_name Opcode.istore = "istore"
op_name Opcode.iadd = "iadd"
op_name Opcode.isub = "isub"
op_name Opcode.imul = "imul"
op_name Opcode.idiv = "idiv"
op_name Opcode.iinc = "iinc"
op_name Opcode.idec = "idec"
op_name Opcode.ilt = "ilt"
op_name Opcode.ilte = "ilte"
op_name Opcode.igt = "igt"
op_name Opcode.igte = "igte"
op_name Opcode.ieq = "ieq"
op_name Opcode.fstore = "fstore"
op_name Opcode.fadd = "fadd"
op_name Opcode.fsub = "fsub"
op_name Opcode.fmul = "fmul"
op_name Opcode.fdiv = "fdiv"
op_name Opcode.flt = "flt"
op_name Opcode.flte = "flte"
op_name Opcode.fgt = "fgt"
op_name Opcode.fgte = "fgte"
op_name Opcode.feq = "feq"
op_name Opcode.bstore = "bstore"
op_name Opcode.badd = "badd"
op_name Opcode.bsub = "bsub"
op_name Opcode.binc = "binc"
op_name Opcode.bdec = "bdec"
op_name Opcode.blt = "blt"
op_name Opcode.blte = "blte"
op_name Opcode.bgt = "bgt"
op_name Opcode.bgte = "bgte"
op_name Opcode.beq = "beq"
op_name Opcode.itof = "itof"
op_name Opcode.ftoi = "ftoi"
op_name Opcode.stoi = "stoi"
op_name Opcode.stof = "stof"
op_name Opcode.strstore = "strstore"
op_name Opcode.streq = "streq"
op_name Opcode.vec = "vec"
op_name Opcode.vinsert = "vinsert"
op_name Opcode.vpush = "vpush"
op_name Opcode.vpop = "vpop"
op_name Opcode.vat = "vat"
op_name Opcode.vlen = "vlen"
op_name Opcode.bool = "bool"
op_name Opcode.not = "not"
op_name Opcode.and = "and"
op_name Opcode.or = "or"
op_name Opcode.move = "move"
op_name Opcode.copy = "copy"
op_name Opcode.ref = "ref"
op_name Opcode.swap = "swap"
op_name Opcode.free = "free"
op_name Opcode.empty = "empty"
op_name Opcode.isnull = "isnull"
op_name Opcode.ress = "ress"
op_name Opcode.tmpri = "tmpri"
op_name Opcode.tmpro = "tmpro"
op_name Opcode.print = "print"
op_name Opcode.echo = "echo"
op_name Opcode.clbind = "clbind"
op_name Opcode.closure = "closure"
op_name Opcode.function = "function"
op_name Opcode.fcall = "fcall"
op_name Opcode.frame = "frame"
op_name Opcode.param = "param"
op_name Opcode.paref = "paref"
op_name Opcode.call = "call"
op_name Opcode.arg = "arg"
op_name Opcode.argc = "argc"
op_name Opcode.jump = "jump"
op_name Opcode.branch = "branch"
op_name Opcode.throw = "throw"
op_name Opcode.catch = "catch"
op_name Opcode.pull = "pull"
op_name Opcode.try = "try"
op_name Opcode.enter = "enter"
op_name Opcode.leave = "leave"
op_name Opcode.import = "import"
op_name Opcode.link = "link"
op_name Opcode.class = "class"
op_name Opcode.prototype = "prototype"
op_name Opcode.derive = "derive"
op_name Opcode.attach = "attach"
op_name Opcode.register = "register"
op_name Opcode.new = "new"
op_name Opcode.msg = "msg"
op_name Opcode.end = "end"
op_name Opcode.halt = "halt"
