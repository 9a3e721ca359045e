-- ===== src/Machine.antt =====
-- The emulated computer of machine/machine.c: memory map, devices, bus, MMU and the step functions.
pub mod Map
pub mod State
pub mod Core
pub mod Opcodes
pub mod Bus
pub mod Devices
pub mod Mmu
pub mod Step
pub mod Create
