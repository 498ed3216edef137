-- ===== src/Indexer.antt =====
-- jobs/blockchain-indexer: the job that copies contract events into the database.
pub mod Defs
pub mod Persist
pub mod Process
pub mod Cursor
pub mod Advance
pub mod Idempotent
mod Tests
