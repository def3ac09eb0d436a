-- ===== src/Execute.antt =====
-- The fetch, decode and execute loop: riscv-isa-sim/riscv/execute.cc.
pub mod Dispatch
pub mod Registers
pub mod Processor
pub mod Loop
pub mod Interrupts
pub mod CountRules
pub mod Bounds
pub mod Rounds
pub mod Steps
