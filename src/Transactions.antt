-- ===== src/Transactions.antt =====
-- Submission and status of transactions (modules/transactions/transactions.service.ts).
pub mod Defs
pub mod Errors
pub mod Service
pub mod Settled
mod Tests
