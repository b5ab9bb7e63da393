-- ===== src/Proxy.antt =====
-- app/proxy: the request flow and the streaming helpers.
pub mod Streaming
pub mod Echo
pub mod Service
