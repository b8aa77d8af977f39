-- ===== src/Server.antt =====
-- The control plane apps/lmt-server: its services over the store, and its run logs.
pub mod Services
pub mod Lifecycle
pub mod LogFile
pub mod LogRetention
