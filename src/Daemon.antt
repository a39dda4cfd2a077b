-- ===== src/Daemon.antt =====
-- crates/daemon: how an instance's emissions reach the mailboxes of the others.
pub mod Outlet
