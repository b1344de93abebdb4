-- ===== src/Io.antt =====
-- crates/cockpitctl-io/src/lib.rs and the process adapters beside it.
pub mod Samples
pub mod Layout
pub mod Source
pub mod Sink
pub mod Schema
pub mod Hooks
pub mod Actuator
