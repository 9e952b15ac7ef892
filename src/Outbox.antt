-- ===== src/Outbox.antt =====
-- Notifications and the push outbox: backend/app/services/notification_service.py,
-- notification_channels.py, push_lifecycle.py and push_worker_service.py.
pub mod Models
pub mod Push
pub mod Service
pub mod Inbox
pub mod Deliveries
pub mod Dedupe
mod Tests
pub mod Lifecycle
pub mod Worker
