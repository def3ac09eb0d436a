-- ===== src/Insn.antt =====
-- riscv-isa-sim/riscv/insns/: one definition for each instruction, named after its file.
pub mod Context
pub mod Alu
pub mod Words
pub mod MulDiv
pub mod Branch
pub mod LoadStore
pub mod Atomic
pub mod System
pub mod Compressed
pub mod CompressedJumps
pub mod FloatContext
pub mod FloatArith
pub mod FloatTests
pub mod FloatMoves
pub mod FloatMemory
pub mod Canonical
pub mod Registers
pub mod Rules
pub mod AluRegs
pub mod MemoryRegs
pub mod JumpRegs
pub mod MulDivRegs
pub mod CompressedRegs
pub mod FloatRegs
pub mod HighRegs
pub mod WideRegs
pub mod FloatMemoryRegs
pub mod SystemRegs
pub mod CompressedJumpRegs
