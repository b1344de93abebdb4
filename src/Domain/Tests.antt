-- ===== src/Domain/Tests.antt =====
-- Runs of crates/cockpitctl-domain/src/lib.rs on small inputs.
mod Verdicts
mod Highlights
mod Findings
mod Receipts
