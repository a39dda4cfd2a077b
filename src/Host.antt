-- ===== src/Host.antt =====
-- crates/host-core: the ABI semantics that every host shares; its connection table, and a guest's
-- lifecycle, memory and imports.
pub mod CoreFns
pub mod Engine
pub mod Instance
pub mod Memory
pub mod Prop
pub mod Router
pub mod State
pub mod Timers
