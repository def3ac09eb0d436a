-- ===== src/CacheSim.antt =====
-- The cache simulators that count hits and misses: riscv-isa-sim/riscv/cachesim.h and cachesim.cc.
pub mod Cache
pub mod Lfsr
pub mod Tags
pub mod Hits
pub mod Init
pub mod Counts
pub mod FullyAssoc
