-- ===== src/Machine.antt =====
-- riscv-isa-sim/riscv/processor.h, trap.h and the state in mmu.h: the registers of a hart, its
-- memory port, the traps, and the actions that instructions are made of.
mod Data
mod Monad
pub mod Keeps
unfoldable pub use Data.*
unfoldable pub use Monad.*
