-- ===== src/Debugger.antt =====
-- The debugger core (include/Debugger, src/Debugger) and the guest memory that it maps.
pub mod Guest
pub mod Base
pub mod Restore
pub mod Breakpoints
pub mod Masking
pub mod Writing
pub mod Relift
pub mod Target
pub mod Stepping
pub mod Hvm
pub mod Pv
mod Tests
