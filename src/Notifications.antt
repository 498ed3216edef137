-- ===== src/Notifications.antt =====
-- The read marks of notifications (modules/notifications).
pub mod Defs
pub mod Service
pub mod Unread
mod Tests
