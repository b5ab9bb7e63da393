-- ===== src/Api/Main.antt =====
-- app/main.py: what the lifespan builds from the settings, and the probes. The middleware that
-- `create_app` adds is in Core.Correlation, its error handler in Api.Chat.
use llm_semantic_caching_lay.Prelude.{
  ℕ, Bool, Option, none, some, [], Text, codes, Exec, ok, raise, if◌then◌else◌,
}
use llm_semantic_caching_lay.Prelude.Int.{ℤ}
use llm_semantic_caching_lay.Float.{Float}
use llm_semantic_caching_lay.Models.Json.{Json, str, obj, empty, field}
use llm_semantic_caching_lay.Cache.VectorStore.{VectorStore}
use llm_semantic_caching_lay.Cache.RedisStore.{RedisVectorStore}
use llm_semantic_caching_lay.Cache.SemanticCache.{SemanticCache}
use llm_semantic_caching_lay.Policies.Ttl.{TtlClassifier}
use llm_semantic_caching_lay.Policies.Threshold.{Policies, default_policies}
use llm_semantic_caching_lay.Analytics.NearMiss.{NearMissTracker}
use llm_semantic_caching_lay.Analytics.NearMiss
use llm_semantic_caching_lay.Analytics.Validation.{CacheValidator}
use llm_semantic_caching_lay.Analytics.Validation
use llm_semantic_caching_lay.Monitoring.Metrics.{CacheMetrics}
use llm_semantic_caching_lay.Monitoring.Metrics
use llm_semantic_caching_lay.Core.Http.{Reply, plain}
use llm_semantic_caching_lay.Core.Config.{
  Settings, VectorBackend, EmbeddingProvider, CompleterBackend,
}

-- The store and the completer that the settings choose.
pub data Backend : Type 0 where
  in_memory : Backend
  redis : RedisVectorStore → Backend

pub data Answering : Type 0 where
  echoing routing : Answering

unfoldable pub build_store : {F : Type 0} → Settings F → Backend
build_store settings = elim settings.vector_backend [
  | VectorBackend.memory ↦ in_memory
  | VectorBackend.redis ↦
      redis
        (record { index = settings.cache_index_name; dimensions = settings.embedding_dimensions })
]

unfoldable pub build_completer : {F : Type 0} → Settings F → Answering
build_completer settings = elim settings.completer_backend [
  | CompleterBackend.echo ↦ echoing
  | CompleterBackend.router ↦ routing
]

-- The embedding service that the settings choose, with what its constructor is given.
pub data Embedding (F : Type 0) : Type 0 where
  hashed : (model : Text) (dimensions : ℤ) → Embedding F
  over_http : (api_key base_url model : Text) (dimensions : ℤ) (timeout : F) → Embedding F

-- `build_embedding_service` of app/embeddings/__init__.py.
unfoldable pub build_embedding_service : {F : Type 0} → Settings F → Embedding F
build_embedding_service settings = elim settings.embedding_provider [
  | EmbeddingProvider.fake ↦ hashed settings.embedding_model settings.embedding_dimensions
  | EmbeddingProvider.openai ↦
      over_http settings.openai_api_key settings.openai_base_url settings.embedding_model
        settings.embedding_dimensions settings.upstream_timeout_seconds
]

-- What `app.state` and the proxy hold. With `adaptive` the proxy asks the engine for thresholds.
pub record App (F : Type 0) : Type 0 where
  pub embeddings : Embedding F
  pub backend : Backend
  pub answering : Answering
  pub cache : SemanticCache F
  pub ttl_classifier : TtlClassifier
  pub threshold_engine : Policies F
  pub adaptive : Bool
  pub metrics : CacheMetrics F
  pub near_miss_tracker : NearMissTracker F
  pub validator : Option (CacheValidator F)
  pub default_ttl : ℤ

module _ {F : Type 0} ⦃f : Float F⦄ where
  -- The cache takes 5 candidates, the tracker reports from 20 events on and keeps 1,000: the
  -- defaults of their constructors.
  unfoldable pub startup : Settings F → App F
  unfolding build_embedding_service build_store build_completer default_policies
  startup settings = record {
    embeddings = build_embedding_service settings;
    backend = build_store settings;
    answering = build_completer settings;
    cache = record {
      threshold = settings.similarity_threshold;
      near_miss_window = settings.near_miss_window;
      top_k = 5;
    };
    ttl_classifier = record {
      long_ttl = settings.default_ttl_seconds;
      short_ttl = settings.short_ttl_seconds;
    };
    threshold_engine = default_policies;
    adaptive = settings.adaptive_thresholds_enabled;
    metrics = Metrics.init;
    near_miss_tracker = NearMiss.init 20 1000;
    validator =
        if settings.validation_enabled
        then some
            (Validation.init settings.validation_sample_rate settings.validation_drift_threshold)
        else none;
    default_ttl = settings.default_ttl_seconds;
  }

module _ {F : Type 0} where
  unfoldable pub root : (version : Text) → Settings F → Reply (Json F)
  root version settings = plain (
      obj (
        field (codes "service") (str settings.service_name)
          (field (codes "version") (str version) empty)))

  abbrev pub status_reply : ℕ → Text → Reply (Json F)
  status_reply status text = record {
    status = status;
    headers = [];
    content = obj (field (codes "status") (str text) empty);
  }

  unfoldable pub healthz : Reply (Json F)
  healthz = status_reply 200 (codes "ok")

  -- Without a store the application is starting.
  unfoldable pub readyz : {S : Type 0} → Option (VectorStore F S) → Exec S (Reply (Json F))
  readyz none s = (ok (status_reply 503 (codes "starting")), s)
  readyz (some store) s =
      let (counted, after) = store.count s in
      elim counted [
        | ok n ↦ (ok (status_reply 200 (codes "ready")), after)
        | raise e ↦ (ok (status_reply 503 (codes "unavailable")), after)
      ]
