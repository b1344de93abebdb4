-- ===== src/Tests.antt =====
-- Runs of the crates beside the domain on small inputs.
mod Features
mod Trend
mod Xtask
mod Buildfix
mod Ingest
mod Sarif
mod Render
mod Signing
mod Io
mod Conform
mod Cli
