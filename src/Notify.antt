-- ===== src/Notify.antt =====
-- Notifications of level changes (api/app/services/notify_service.py).
pub mod Rules
pub mod Outbox
pub mod Messages
pub mod Sending
pub mod LevelChanges
pub mod LevelStore
pub mod LogCount
pub mod Consistency
