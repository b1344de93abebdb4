-- ===== src/Types.antt =====
-- crates/cockpitctl-types/src/lib.rs
pub mod Enums
pub mod Run
pub mod Findings
pub mod Config
pub mod Reports
pub mod Fixes
pub mod Deltas
pub mod Hints
pub mod Defaults
pub mod Ranks
pub mod SensorId
