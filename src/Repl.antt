-- ===== src/Repl.antt =====
-- `DebuggerWrapper` (src/REPL/DebuggerWrapper.cpp), the state behind the commands of the REPL, and
-- the commands themselves (src/REPL/Command).
pub mod Wrapper
pub mod Assignment
pub mod Scan
pub mod Command
pub mod Lines
pub mod Actions
pub mod Shell
pub mod Perform
pub mod Quoting
pub mod Unattached
pub mod Session
pub mod Numbering
mod Tests
