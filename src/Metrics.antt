-- ===== src/Metrics.antt =====
-- backend/src/metrics: the figures that the dashboard shows.
pub mod Cache
