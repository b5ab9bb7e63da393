-- ===== src/Analytics.antt =====
-- app/analytics: near misses, the sweep over thresholds, and the validation of hits.
pub mod NearMiss
pub mod Threshold
pub mod Validation
