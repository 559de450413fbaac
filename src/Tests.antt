-- ===== src/Tests.antt =====
-- The theorems at concrete inputs.
mod Storage
mod Reportd
mod App
mod Report
mod Postgres
