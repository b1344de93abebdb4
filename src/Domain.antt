-- ===== src/Domain.antt =====
-- crates/cockpitctl-domain/src/lib.rs: the pure policy logic.
pub mod Outcome
pub mod Counts
pub mod Findings
pub mod Codes
pub mod Verdict
pub mod Highlights
pub mod Sensors
pub mod Synthesize
pub mod Summarize
pub mod Report
pub mod Samples
pub mod Tests
