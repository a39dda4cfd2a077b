-- ===== src/Manifest.antt =====
-- crates/manifest: what a block says of itself, and the rules for the names in it.
pub mod Pattern
pub mod Names
