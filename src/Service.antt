-- ===== src/Service.antt =====
-- crates/service: what a service file says, and the two stages of checking it.
pub mod Text
pub mod Connection
