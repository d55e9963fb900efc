-- ===== src/Cpu.antt =====
-- The virtual CPU: its register sets, and the machine that runs on them.
pub mod RegisterSet
pub mod Machine
pub mod Frames
pub mod Blocks
pub mod Instructions
pub mod Inheritance
pub mod Dispatch
pub mod Tick
pub mod Run
pub mod Soundness
