-- ===== src/Mmu.antt =====
-- riscv-isa-sim/riscv/mmu.h and mmu.cc: the memory port of a hart. The port always has a processor
-- (`proc` is set).
pub mod Memory
pub mod Tlb
pub mod Walk
pub mod Access
pub mod Fetch
pub mod Roundtrip
pub mod Coherent
pub mod Frame
pub mod FastPath
pub mod Misaligned
pub mod OnBus
