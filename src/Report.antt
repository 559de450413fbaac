-- ===== src/Report.antt =====
-- src/internal/report: panels are chosen from dashboards, rendered by Grafana and put into files.
pub mod Render
pub mod Pages
pub mod Panels
pub mod Generate
