-- ===== src/Api.antt =====
-- app/api and app/main.py: the routes, and how the service is put together.
pub mod Chat
pub mod Cache
pub mod Analytics
pub mod Metrics
pub mod Main
