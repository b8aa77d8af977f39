-- ===== src/Agent/Publication.antt =====
-- Atomic publication (apps/lmt-agent/src/publication.rs).
pub mod World
pub mod Restoration
pub mod Commit
pub mod Hoare
pub mod Invariant
pub mod Restoring
pub mod Preparing
pub mod Visibility
pub mod Committing
pub mod Starting
pub mod Recovering
pub mod Atomicity
