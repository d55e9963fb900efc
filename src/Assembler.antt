-- ===== src/Assembler.antt =====
-- The assembler: the code of src/cg/assembler/.
pub mod Extract
pub mod Generate
pub mod Operands
pub mod Verify
