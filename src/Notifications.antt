-- ===== src/Notifications.antt =====
-- apps/backend/src/notifications/: when an alert may be sent.
pub mod Messages
pub mod Quiet
pub mod Window
pub mod Alerts
pub mod Throttle
