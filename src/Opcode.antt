-- ===== src/Opcode.antt =====
-- Decoding an instruction word: riscv-isa-sim/riscv/processor.cc.
pub mod Table
pub mod Grouped
pub mod Names
pub mod EncodingsBase
pub mod EncodingsFloat
pub mod Moves
pub mod Decoder
pub mod Correct
pub mod Base
pub mod Reached
