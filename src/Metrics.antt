-- ===== src/Metrics.antt =====
-- pkg/metrics: what the service counts of itself.
pub mod Vec
pub mod Http
pub mod Keys
pub mod Counting
