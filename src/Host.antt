-- ===== src/Host.antt =====
-- wapo-host/src/runtime: what the host keeps for one instance of an app.
pub mod TaskSet
pub mod Wakers
pub mod Resources
pub mod Context
pub mod Memory
pub mod Service
pub mod Blobs
