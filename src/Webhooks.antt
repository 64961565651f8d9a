-- ===== src/Webhooks.antt =====
-- Alerts of other monitoring tools (api/app/services/webhooks_service.py).
pub mod Value
pub mod Alertmanager
pub mod Request
pub mod Table
pub mod Stored
pub mod Indexed
pub mod Parsed
