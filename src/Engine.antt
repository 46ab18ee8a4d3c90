-- ===== src/Engine.antt =====
-- src/engine: what the runner does between a market frame and the transactions.
pub mod EntryRearm
pub mod Feed
pub mod Paper
