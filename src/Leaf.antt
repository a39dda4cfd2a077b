-- ===== src/Leaf.antt =====
-- crates/leaf: the leaf runtime's timer scheduler.
pub mod Timer
