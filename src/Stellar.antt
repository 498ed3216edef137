-- ===== src/Stellar.antt =====
-- The Horizon client of the application (blockchain/stellar).
pub mod Retry
pub mod Attempts
mod Tests
