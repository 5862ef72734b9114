-- ===== src/Notification.antt =====
-- services/notification-service/src/server.js: the alerts that are sent, suppressed and kept.
pub mod Dedupe
pub mod Deliver
pub mod App
pub mod Spacing
pub mod History
pub mod Consumer
pub mod Announce
