-- ===== src/Privileged.antt =====
-- riscv-isa-sim/riscv/processor.cc: control and status registers, the privilege stack, traps.
pub mod Csr
pub mod CsrRead
pub mod Traps
pub mod Reservation
pub mod Reset
pub mod Started
pub mod Serialize
pub mod Pushed
pub mod StackMoves
pub mod StatusWrites
pub mod TrapReturn
