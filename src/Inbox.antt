-- ===== src/Inbox.antt =====
-- Per-user triage notifications (hub/app/services/notification_service.py and its repository).
pub mod Gate
pub mod Repo
pub mod Notify
pub mod Triage
pub mod Subjects
pub mod Delivery
pub mod Keys
pub mod Threads
