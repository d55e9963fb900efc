-- ===== src/Tests.antt =====
-- Runs of the models at concrete inputs.
mod Bytecode
mod Jumps
mod Lines
mod Loader
mod Assembler
mod Cpu
mod Machine
mod Stacks
mod Decoding
mod Extraction
mod Text
