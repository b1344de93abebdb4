-- ===== src/Render.antt =====
-- crates/cockpitctl-render/src/lib.rs: the Markdown comment and the workflow commands.
pub mod Badges
pub mod Annotations
pub mod Github
pub mod Sections
pub mod Comment
pub mod Append
pub mod Samples
