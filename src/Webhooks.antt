-- ===== src/Webhooks.antt =====
-- Webhooks of merchants (jobs/webhook-delivery and modules/webhooks).
pub mod Defs
pub mod Dispatch
pub mod Delivery
pub mod Endpoints
pub mod Occurrences
pub mod Attempts
pub mod Accepted
pub mod Queue
pub mod Owners
mod Tests
