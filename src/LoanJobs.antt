-- ===== src/LoanJobs.antt =====
-- The jobs that run over the loans once per period (jobs/loan-default-detector,
-- jobs/interest-accrual, jobs/yield-distribution).
pub mod Defs
pub mod Detector
pub mod Defaults
pub mod Period
pub mod Accrual
pub mod Accruals
pub mod Elapsed
pub mod Yield
pub mod Crediting
pub mod Noting
pub mod Distribution
pub mod Shares
pub mod Interest
mod InterestTests
mod Tests
