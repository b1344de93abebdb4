-- ===== src/Cli.antt =====
-- crates/cockpitctl-cli/src/main.rs: the options that are laid over the configuration, and the
-- application of fixes, the signature and the hooks, and the other commands.
pub mod Options
pub mod Apply
pub mod Stages
pub mod Commands
pub mod Ingest
pub mod Entry
pub mod Signing
pub mod Samples
