-- ===== src/Guest.antt =====
-- wapo-env/src/tasks.rs: the executor inside the guest.
pub mod Wakers
pub mod Tasks
pub mod Io
