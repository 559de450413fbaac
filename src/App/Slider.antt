-- ===== src/App/Slider.antt =====
-- src/internal/app/window_metrics.go.
pub mod Deque
pub mod Mtie
pub mod Deviation
pub mod Windows
