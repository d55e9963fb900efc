-- ===== src/Bytecode.antt =====
-- The bytecode: opcodes, the encoders of src/cg/bytecode/instructions.cpp, and src/program.cpp.
pub mod Opcode
pub mod Tables
pub mod Cursor
pub mod Encode
pub mod Instruction
pub mod Program
