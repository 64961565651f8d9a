-- ===== src/Planned.antt =====
-- Planned maintenance windows (api/app/services/maintenance_service.py).
pub mod Window
pub mod Active
pub mod Ending
pub mod Request
pub mod Creation
pub mod Listing
