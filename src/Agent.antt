-- ===== src/Agent.antt =====
-- The Agent (apps/lmt-agent): the durable record of an attempt, and atomic publication.
pub mod Spool
pub mod Publication
