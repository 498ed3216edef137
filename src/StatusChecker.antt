-- ===== src/StatusChecker.antt =====
-- jobs/transaction-status-checker: the job that settles pending Stellar transactions.
pub mod Defs
pub mod Metadata
pub mod FollowUp
pub mod Process
pub mod Once
pub mod Evolution
pub mod Steps
pub mod Activation
pub mod Left
pub mod Answers
pub mod Repayment
pub mod Paid
mod Tests
pub mod Run
