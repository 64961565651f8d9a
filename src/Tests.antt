-- ===== src/Tests.antt =====
-- The theorems at concrete inputs, and runs of the definitions.
mod Availability
mod Alerts
mod Incidents
mod Flapping
mod Tenants
mod Stacks
mod Notify
mod Planned
mod Tokens
mod Access
mod Webhooks
