-- ===== src/Incidents.antt =====
-- Incidents: the alerts of single devices, from the build that opens one to the one that resolves
-- it, with their events and acknowledgements (api/app/services/alerts_service.py).
pub mod Store
pub mod Since
pub mod Lifecycle
pub mod Acknowledge
pub mod Resolve
pub mod Rows
pub mod Sound
pub mod Opened
pub mod Began
pub mod Reported
pub mod Rounds
pub mod Settled
