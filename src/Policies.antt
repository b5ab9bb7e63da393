-- ===== src/Policies.antt =====
-- app/policies: adaptive thresholds and times to live. `search` stands for `re`: whether a pattern,
-- compiled without regard to case, is found in a text. `lower` stands for `str.lower`.
pub mod Threshold
pub mod Ttl
