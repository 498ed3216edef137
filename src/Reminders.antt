-- ===== src/Reminders.antt =====
-- Reminders of payments (jobs/loan-payment-reminder).
pub mod Windows
pub mod Defs
pub mod Process
pub mod Sent
pub mod Totals
pub mod Once
pub mod Again
mod Tests
