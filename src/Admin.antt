-- ===== src/Admin.antt =====
-- modules/admin: roles, merchant applications and overrides of a loan's status.
pub mod Defs
pub mod Service
pub mod Overrides
pub mod AuditTrail
pub mod Applications
pub mod Reviews
pub mod Applying
pub mod Pending
mod Tests
mod ReviewTests
