-- ===== src/Domain/Synthesize.antt =====
-- The synthesized summaries and findings of crates/cockpitctl-domain/src/lib.rs: a receipt that is
-- missing, invalid, against the schema, unsafe, too large or inconsistent.
mod Highlight
mod Receipt
mod Guard
unfoldable pub use Highlight.*
unfoldable pub use Receipt.*
unfoldable pub use Guard.*
