-- ===== src/Dcs.antt =====
-- The dcs package: dynamic values, the decoded cluster snapshot of dcs/types.go, and the key layout
-- of dcs/path.go.
pub mod Values
pub mod Snapshots
pub mod Keys
mod Tests
