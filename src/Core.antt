-- ===== src/Core.antt =====
-- app/core: the middleware and the settings.
pub mod Http
pub mod RateLimit
pub mod Correlation
pub mod Config
