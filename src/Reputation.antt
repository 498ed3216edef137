-- ===== src/Reputation.antt =====
-- modules/reputation: the score of a wallet and the credit terms that follow from it.
pub mod Terms
pub mod Service
pub mod Sources
mod Tests
