-- ===== src/Loans.antt =====
-- modules/loans and the `loans` table: quotes, schedules, creation, repayment previews and credit.
pub mod Money
pub mod Schedule
pub mod Defs
pub mod Repository
pub mod Updates
pub mod Paid
pub mod Quote
pub mod Terms
pub mod Service
pub mod Creation
mod Tests
mod ServiceTests
