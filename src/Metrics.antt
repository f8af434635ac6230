-- ===== src/Metrics.antt =====
-- backend/internal/metrics: the rolling windows of observations.
pub mod Window
pub mod Bounds
