-- ===== src/Xen.antt =====
-- The guest as the debugger drives it (include/Xen, src/Xen).
pub mod Hypervisor
pub mod Domain
pub mod DomainPv
pub mod DomainHvm
pub mod Guests
pub mod Conversion
pub mod PageTable
pub mod Sample
mod Tests
