-- ===== src/Conform.antt =====
-- crates/cockpitctl-conform: the checks of a receipt and of a cockpit report.
pub mod Checks
pub mod Single
pub mod Cli
