-- ===== src/Lib.antt =====
-- A verification of the core of a semantic caching proxy for LLM APIs (app/).
--
-- The proxy answers a chat request from a cache where a stored prompt is similar enough, and
-- otherwise from a provider. A request gives a signature, whose namespace scopes the cache
-- (app/cache/namespace.py); the prompt is embedded, the vector store is searched within the
-- namespace (app/cache/memory_store.py, app/cache/similarity.py), and the best score is compared
-- with a threshold (app/cache/semantic_cache.py). On a miss a router picks a provider
-- (app/providers/router.py), a streamed answer is assembled from its events
-- (app/proxy/streaming.py), and a policy says how long it may be kept (app/policies). Near misses
-- are collected and thresholds swept for tuning, hits are sampled for validation (app/analytics),
-- and clients are limited in rate (app/core/middleware.py).
--
-- - Prelude: texts as lists of code points or bytes, integers, decimal numerals, results, calls
--   that change a state and may raise (Exec), dictionaries in insertion order, and stable sorting.
-- - Float: the floats, as an abstract type with its operations (NaN excluded); its order is a
--   record of laws, and Float.Decimals is a concrete instance for tests.
-- - Models: app/models/chat.py (Models.Chat), app/models/cache.py (Models.Entry), and JSON
--   values.
-- - Embeddings: the interface of app/embeddings/base.py; Embeddings.Fake and Embeddings.OpenAi:
--   the services of app/embeddings. Models.Json.Order is Python's order on JSON values, by which a
--   batch is sorted.
-- - Cache.Namespace, Cache.Similarity, Cache.MemoryStore, Cache.SemanticCache: the files of the
--   same names in app/cache; Cache.VectorStore is the abstract class of app/cache/store.py,
--   Cache.Numpy what is called of NumPy.
-- - Proxy.Streaming: app/proxy/streaming.py; push, _consume_event, _merge and build_response of
--   StreamAssembler are push, consume_event, merge and build_response, and
--   Proxy.Streaming.Rendering has response_to_sse. Proxy.Service: app/proxy/service.py, where
--   complete and stream (in Proxy.Service.Bodies) are the methods of ProxyService, and miss_body
--   and hit_body the generators, read to their end. Proxy.Service.Expected describes a completion
--   over the in-memory store by the entries that it holds. Proxy.Echo: app/proxy/echo.py.
-- - Policies.Threshold, Policies.Ttl: the two files of app/policies. Analytics.NearMiss,
--   Analytics.Threshold, Analytics.Validation: the three files of app/analytics.
--   Monitoring.Metrics: app/monitoring/metrics.py. Core.RateLimit: the token bucket and the
--   limiter of app/core/middleware.py. Providers.OpenAi, Providers.Ollama, Providers.Anthropic,
--   Providers.Base, Providers.Router: the files of app/providers, with what the first three share
--   in Providers.Http and Providers.Compatible.
-- - Cache.RedisStore: RedisVectorStore of app/cache/store.py. Core.Config: app/core/config.py.
--   Core.Correlation: CorrelationIdMiddleware of app/core/middleware.py with the context variable
--   of app/core/logging.py, and the middleware as create_app of app/main.py stacks it
--   (Core.Correlation.Tagging). Core.Http: a response.
-- - Api.Chat, Api.Cache, Api.Analytics, Api.Metrics: the routes of the same names in app/api,
--   and the error handler of app/main.py in Api.Chat. Api.Main: what the lifespan of app/main.py
--   builds from the settings, and the probes.
-- - Tests: concrete inputs.
--
-- Methods of an object are functions on its state; the readings of clocks and of uuid4 are
-- arguments, and log lines are left out. A search of the in-memory store is given what it reads
-- off the clock. The match in the result of a lookup is the entry as the search found it: the
-- program returns the stored object itself, whose hit count the hit has raised by one. NumPy,
-- SHA-256, regular expressions, str.lower, orjson, redis-py, httpx, tenacity, the validation of
-- models and of redis_url by pydantic and, outside app/embeddings, the embedding service are
-- parameters; theorems that rely on them name the documented behaviour they need.
--
-- One loop runs on fuel: the loop of push over the events in its buffer. Each pass removes at
-- least two bytes, so that the length of the buffer is enough.
--
-- Not modelled: FastAPI and Starlette, which read requests and send replies; how pydantic reads
-- settings from the environment, and the set-up of structlog, which are calls of those libraries;
-- the shutdown, which closes clients; the construction of the clients; and the scripts, which
-- measure a running server.
pub mod Prelude
pub mod Float
pub mod Models
pub mod Embeddings
pub mod Cache
pub mod Proxy
pub mod Analytics
pub mod Policies
pub mod Api
pub mod Core
pub mod Providers
pub mod Monitoring
pub mod Tests
