-- ===== src/Tests/Reportd.antt =====
-- The theorems on src/internal/reportd at concrete inputs.
mod Data
mod Jobs
mod Cleaned
mod Alerted
mod Http
