-- ===== src/Monitoring.antt =====
-- app/monitoring: the metrics of the cache.
pub mod Metrics
