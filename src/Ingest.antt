-- ===== src/Ingest.antt =====
-- crates/cockpitctl-ingest/src/lib.rs: the use case over its ports.
pub mod Result
pub mod Ports
pub mod Examine
pub mod Execute
pub mod Samples
