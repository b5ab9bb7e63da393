-- ===== src/Providers.antt =====
-- app/providers: the HTTP providers, and the router.
pub mod Http
pub mod Compatible
pub mod OpenAi
pub mod Ollama
pub mod Anthropic
pub mod Calls
pub mod Base
pub mod Router
