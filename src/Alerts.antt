-- ===== src/Alerts.antt =====
-- Alert levels of sites and devices (api/app/services/alerts_service.py).
pub mod Device
pub mod Severity
pub mod Worst
pub mod Rules
pub mod SiteRules
pub mod SiteNames
pub mod DeviceState
pub mod Flapping
pub mod Tenants
pub mod TenantView
pub mod TenantList
pub mod StateTable
pub mod Stacks
pub mod StackDown
