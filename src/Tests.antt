-- ===== src/Tests.antt =====
-- Concrete machines and kernels, and the theorems at them.
mod Machines
mod Steps
mod Starts
mod Kernels
mod Processes
mod Storage
mod Sectors
mod Calls
mod Consoles
mod Mkfs
