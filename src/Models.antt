-- ===== src/Models.antt =====
-- The schemas of app/models: JSON values, chat requests and responses, cache entries.
pub mod Json
pub mod Chat
pub mod Entry
