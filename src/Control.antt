-- ===== src/Control.antt =====
-- The control package: operation contracts, and the write operations built on them.
pub mod Types
pub mod Errors
pub mod Plans
pub mod Outcomes
pub mod Platform
pub mod Service
pub mod Reports
pub mod VersionGate
pub mod Doubts
pub mod Writes
pub mod Pause
pub mod Groups
pub mod Reload
pub mod Restart
pub mod Transition
mod Tests
