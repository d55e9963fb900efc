-- ===== src/Lib.antt =====
-- The Viua virtual machine: its bytecode, its assembler, its CPU and its text helpers.
--
-- The assembler (src/front/asm.cpp and src/front/asm/) reads lines of code with the helpers of
-- src/support/string.cpp, computes from the size tables how many bytes the program will have,
-- allocates an array of that size, and calls one method of `Program` for each line. A method of
-- `Program` (src/programinstructions.cpp) saves the pointers of jump targets and calls an encoder
-- of `cg::bytecode` (src/cg/bytecode/instructions.cpp), which writes the opcode and the operands at
-- `addr_ptr` and moves it on. When all is written, jump targets, which are instruction indices,
-- become offsets of bytes by a walk over the bytecode (src/program.cpp). The CPU runs the bytecode
-- over register sets (src/cpu/registerset.cpp): `run` calls `tick`, which dispatches the instruction at
-- the instruction pointer to its handler (src/cpu/instr/), and passes what the handler threw, or a
-- `throw` of the program, to the handler block of a try frame (src/cpu/cpu.cpp).
--
-- Files, and the code that each is about:
--
--   Common            truth values, lists, texts and results that the parts share
--   Bytecode.Opcode   `enum OPCODE` of include/viua/bytecode/opcodes.h, and OP_NAMES as a lookup by byte
--   Bytecode.Tables   OP_SIZES, OP_NAMES and OP_VARIABLE_LENGTH of include/viua/bytecode/maps.h
--   Bytecode.Cursor   the array `program` with `addr_ptr` in it; writes through `addr_ptr`
--   Bytecode.Encode   the encoders of src/cg/bytecode/instructions.cpp, under their names in
--                     `cg::bytecode`, in Encode.Numbers, Encode.Registers and Encode.Control
--   Bytecode.Instruction
--                     the instructions with their operands, `emit` by the encoders; Layout says
--                     independently which bytes an instruction has, Emit compares the two
--   Bytecode.Program  the class `Program`: insertion and saved jumps (src/programinstructions.cpp); of
--                     src/program.cpp, Count is countBytes and instructionToOpcode, Offset is
--                     getInstructionBytecodeOffset and instructionCount, Jumps is calculateJumps.
--                     Lines, Counted and Assembled compare countBytes with the code that is written,
--                     Insert and Walk have the proofs on insertion and the offset search, Targets,
--                     Relocation and Relocated those on the relocation of jumps
--   Assembler.Extract src/cg/assembler/codeextract.cpp: names, marks, functions and blocks in the lines;
--                     Invokables has the proof on names and bodies
--   Assembler.Operands
--                     src/cg/assembler/operands.cpp; Decimal compares getint with decimal text
--   Assembler.Generate
--                     src/front/asm/generate.cpp: resolvejump and resolveregister; Filter, Handlers and
--                     Lines have `filter`, `compile` and `assemble`. Written, Jumps and Handled have the
--                     proofs on operands, Source the lines that instructions are written as, Compiled
--                     and Whole the proofs on one line and on all of them
--   Assembler.Verify  `frameBalance` of src/cg/assembler/verify.cpp; Checks has its other checks; Frames
--                     and Totality have the proofs on frameBalance, Reports, Counting and Ress those
--                     on the others
--   Cpu.RegisterSet   include/viua/cpu/registerset.h and src/cpu/registerset.cpp; Operations compares
--                     the methods with a map from indices to pointers and masks, Invariant, Flags and
--                     Lifetime have the other proofs
--   Cpu.Machine       the fields of the class `CPU` (include/viua/cpu/cpu.h), frames, try frames and
--                     objects, and code over them that may be stopped; Objects has fetch and place of
--                     src/cpu/cpu.cpp and what the objects answer, Sharing has hasrefs and updaterefs,
--                     Operands the reading of operands; Decoding compares it with the encoders
--   Cpu.Frames        pushFrame, dropFrame, callNative, callForeign (src/cpu/cpu.cpp) and the handlers
--                     of src/cpu/instr/calls.cpp, in Frames, Calls and Arguments; Returning has the
--                     proofs on a call and its end
--   Cpu.Blocks        the handlers of src/cpu/instr/tcmechanism.cpp
--   Cpu.Instructions  the other handlers of src/cpu/instr/: Integers (int.cpp, bool.cpp), Floats
--                     (float.cpp, byte.cpp, str.cpp, part of cast.cpp), Registers (registers.cpp) and
--                     Control (general.cpp)
--   Cpu.Dispatch      src/cpu/dispatch.cpp; Returns and Advances have the proofs on how far an
--                     instruction moves on
--   Cpu.Inheritance   inheritanceChainOf of src/cpu/cpu.cpp, and the proof that it ends
--   Cpu.Tick          `tick` of src/cpu/cpu.cpp; Unwinding and Detailed have the proofs on its two passes
--                     over the try frames
--   Cpu.Run           `iframe`, `begin` and `run` of src/cpu/cpu.cpp
--   Cpu.Soundness     what all code of the CPU keeps, one rule for each way to build code and one lemma
--                     for each operation, up to Soundness.Run
--   Loader            `loadmap` and `calculateFunctionSizes` of src/loader.cpp, and the loop of `generate`
--                     in src/front/asm/generate.cpp that writes the table that loadmap reads; RoundTrip
--                     and Sizes have the proofs
--   Text              `namespace str` of src/support/string.cpp; Words and Quotes have the proofs
--   Tests             runs at concrete inputs
--
-- Conventions. A byte, a character, an `int` and an object pointer are natural numbers; an `int` is
-- given by its 32-bit pattern, of which an encoder writes the four bytes, lowest first. An `int_op`
-- is a pair of a Boolean (the operand is a reference to a register) and a number. `bool` takes one
-- byte and `int` four. A write past the end of the array, which the program would carry out, is
-- `none` here, so a theorem that the result is `some` says that no write leaves the array. An
-- exception is a value `err`; the messages are left out, but one error stands for each kind of
-- exception. The deletion or rebinding of an object is an entry in a list of effects. Which objects
-- are references (`dynamic_cast`), and what `copy()` of an object allocates, are parameters. So
-- are, in the theorems on lines of code, the texts that operands are written as.
--
-- The CPU. An address is a number, and the memory is a function from addresses to bytes. Code of the
-- CPU takes a state and either returns, or is stopped by an exception that `tick` passes to the
-- program, by `halt`, by a C++ exception that nothing catches, or by undefined behaviour, such as a
-- null pointer; the state at that moment is kept. The addresses that `new` returns, of frames, objects
-- and the cells that references share, are handed out in order and not used again. Objects are kept by
-- their address; deletions are listed and reference counts are not kept. A frame that is
-- deleted is not on the stack any more, and the objects that its registers delete are listed; `regset` is
-- empty where it is null or deleted. Arithmetic on `int` wraps.
-- `float` arithmetic, the text of an object, the wording of messages, the functions of extension
-- libraries, and the handlers that are not modelled are parameters, which the theorems on runs trust
-- to keep what they are about. Vectors keep only their truth value. The maps with a string as key are
-- association lists.
--
-- Fuel. A string in the code is read for at most 65536 bytes, the greatest size of a module.
-- inheritanceChainOf runs for 65536 rounds, enough for any chain of fewer elements; the theorem on it
-- says that some number of rounds is enough and that more change nothing. `run` and `ticks` count the
-- ticks that are looked at, for any number of them. `chunks` and `loadmap` run with one unit for each character or byte; every round of their
-- loops takes at least one. The loop of getInstructionBytecodeOffset counts down from the index
-- that is asked for. All other loops are structural.
--
-- Not modelled: the front ends and the debugger (src/front/) but for the parts above, whose work is
-- mostly input and output; of the CPU, callForeignMethod, the loading of
-- libraries, which reads files, and the handlers of vectors, closures, prototypes, objects, modules and
-- of the conversion of text to numbers. A call of a closure uses the registers of the closure, for
-- which the model of `uregset` has no name, so no trusted host calls one. `calculateBranches`, which its
-- comment calls unused; the disassembler, the tokenizer, the rest of the loader, which reads files; the
-- classes of objects (src/types/) beyond what the handlers above need of them, and the standard library
-- (src/stdlib/). Debugging output is left out.
pub mod Assembler
pub mod Bytecode
pub mod Common
pub mod Cpu
pub mod Loader
pub mod Tests
pub mod Text
