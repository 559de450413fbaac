-- ===== src/Reportd.antt =====
-- src/internal/reportd: the report service.
pub mod Types
pub mod Groups
pub mod Service
pub mod Durations
pub mod Alerts
pub mod Auto
pub mod Cleanup
pub mod Http
