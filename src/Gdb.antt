-- ===== src/Gdb.antt =====
-- The GDB remote protocol layer (include/GDBServer, src/GDBServer).
pub mod Packet
pub mod Queue
pub mod Reader
pub mod Request
pub mod Response
pub mod Connection
mod Tests
