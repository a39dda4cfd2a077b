-- ===== src/Signal.antt =====
-- The signal crate (crates/signal).
pub mod Value
