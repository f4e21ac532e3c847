-- ===== src/Gdb.antt =====
-- The GDB remote serial protocol driver: drivers/gdb/gdb_remote.c.
pub mod Wire
pub mod Hex
pub mod Packet
pub mod Access
pub mod Send
pub mod Recv
pub mod Reply
pub mod RoundTrip
pub mod Chunks
pub mod Memory
pub mod Fuel
pub mod Setup
pub mod Halting
