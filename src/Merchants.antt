-- ===== src/Merchants.antt =====
-- The scores of merchants and their leaderboard (modules/merchants).
pub mod Score
pub mod Bounds
pub mod RowLimit
pub mod Leaderboard
pub mod Order
pub mod Ranking
mod Tests
