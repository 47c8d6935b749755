-- ===== src/Server.antt =====
-- The request handler (src/GDBServer/GDBRequestHandler.cpp) over the debuggers, and the session that
-- holds both (src/DebugSession.cpp).
pub mod Handler
pub mod Session
pub mod Backends
pub mod Order
pub mod Memory
pub mod Watchpoints
mod Tests
