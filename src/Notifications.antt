-- ===== src/Notifications.antt =====
-- The notifications: app/services/notification_service.py and notification_dispatch_queue.py.
pub mod Inbox
pub mod Queue
mod Tests
