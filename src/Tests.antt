-- ===== src/Tests.antt =====
-- Runs on small inputs: the data, and the theorems at them.
pub mod Data
mod Gdb
mod Objects
mod Launch
mod Chunks
pub mod ElfFile
mod Elf
mod Devices
mod Pci
mod Setup
