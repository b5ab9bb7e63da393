-- ===== src/Cache.antt =====
-- app/cache: namespaces, similarity search, the vector stores and the lookup workflow.
pub mod Namespace
pub mod Numpy
pub mod Similarity
pub mod VectorStore
pub mod MemoryStore
pub mod RedisStore
pub mod SemanticCache
