-- ===== src/App.antt =====
-- src/internal/app: the window metrics and the message handlers.
pub mod Slider
pub mod Handlers
pub mod Queue
