-- ===== src/Store.antt =====
-- The crate crates/lmt-store: the rows of the database, and its transactions.
pub mod Rows
pub mod Queries
pub mod Invariant
pub mod ManualRun
pub mod Poll
pub mod Cancellation
pub mod Events
pub mod Ticks
pub mod Restore
pub mod Logs
pub mod Codecs
pub mod Nodes
pub mod Credentials
pub mod Revisions
