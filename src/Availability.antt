-- ===== src/Availability.antt =====
-- Availability per site and period (api/app/services/availability_service.py).
pub mod Interval
pub mod Cover
pub mod Union
pub mod Subtract
pub mod Measure
pub mod Reading
pub mod Critical
pub mod CriticalTime
pub mod CriticalRead
pub mod Report
pub mod Maintenance
pub mod Downtime
pub mod Figures
