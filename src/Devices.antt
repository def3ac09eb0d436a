-- ===== src/Devices.antt =====
-- The devices behind the bus: riscv-isa-sim/riscv/devices.h and devices.cc.
pub mod Bus
pub mod Map
pub mod Routes
pub mod Edges
