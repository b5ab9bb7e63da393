-- ===== src/Core/Config.antt =====
-- app/core/config.py: the settings, with values that pydantic has read from the
-- environment as their Python types.
use llm_semantic_caching_lay.Prelude.{
  Bool, Option, none, some, true, false, not, ◌&&◌, Text, codes, Result, ok, raise, failure,
  and_then, if◌then◌else◌,
}
use llm_semantic_caching_lay.Prelude.Int.{ℤ, pos}
use llm_semantic_caching_lay.Float.{Float}

pub data AppEnv : Type 0 where
  development staging production test : AppEnv

pub data VectorBackend : Type 0 where
  redis memory : VectorBackend

pub data EmbeddingProvider : Type 0 where
  openai fake : EmbeddingProvider

pub data CompleterBackend : Type 0 where
  router echo : CompleterBackend

pub record Settings (F : Type 0) : Type 0 where
  pub app_env : AppEnv
  pub log_level : Text
  pub host : Text
  pub port : ℤ
  pub service_name : Text
  pub redis_url : Text
  pub cache_index_name : Text
  pub vector_backend : VectorBackend
  pub embedding_provider : EmbeddingProvider
  pub embedding_model : Text
  pub embedding_dimensions : ℤ
  pub similarity_threshold : F
  pub default_ttl_seconds : ℤ
  pub short_ttl_seconds : ℤ
  pub near_miss_window : F
  pub adaptive_thresholds_enabled : Bool
  pub validation_enabled : Bool
  pub validation_sample_rate : F
  pub validation_drift_threshold : F
  pub completer_backend : CompleterBackend
  pub openai_api_key : Text
  pub openai_base_url : Text
  pub anthropic_api_key : Text
  pub anthropic_base_url : Text
  pub ollama_base_url : Text
  pub rate_limit_enabled : Bool
  pub rate_limit_rps : ℤ
  pub upstream_timeout_seconds : F
  pub upstream_max_retries : ℤ

unfoldable pub is_production : {F : Type 0} → Settings F → Bool
is_production s = elim s.app_env [ AppEnv.production ↦ true | _ ↦ false ]

-- `redis_dsn` stands for the validation of a `RedisDsn`, which a given URL meets and the default
-- does not.
unfoldable pub check_redis_url : (redis_dsn : Text → Result Text) → Option Text → Text → Result Text
check_redis_url redis_dsn none default = ok default
check_redis_url redis_dsn (some given) default = redis_dsn given

module _ {F : Type 0} ⦃f : Float F⦄ where
  -- The defaults of the fields.
  unfoldable pub defaults : Settings F
  defaults = record {
    app_env = AppEnv.development;
    log_level = codes "INFO";
    host = codes "0.0.0.0";
    port = pos 8000;
    service_name = codes "semantic-cache-layer";
    redis_url = codes "redis://localhost:6379/0";
    cache_index_name = codes "semantic_cache";
    vector_backend = VectorBackend.redis;
    embedding_provider = EmbeddingProvider.openai;
    embedding_model = codes "text-embedding-3-small";
    embedding_dimensions = pos 1536;
    similarity_threshold = f.ratio 95 100;
    default_ttl_seconds = pos 86400;
    short_ttl_seconds = pos 3600;
    near_miss_window = f.ratio 5 100;
    adaptive_thresholds_enabled = true;
    validation_enabled = true;
    validation_sample_rate = f.ratio 2 100;
    validation_drift_threshold = f.ratio 90 100;
    completer_backend = CompleterBackend.router;
    openai_api_key = codes "";
    openai_base_url = codes "https://api.openai.com/v1";
    anthropic_api_key = codes "";
    anthropic_base_url = codes "https://api.anthropic.com/v1";
    ollama_base_url = codes "http://localhost:11434/v1";
    rate_limit_enabled = true;
    rate_limit_rps = pos 50;
    upstream_timeout_seconds = f.ratio 60 1;
    upstream_max_retries = pos 2;
  }

  unfoldable pub check_unit_interval : F → Result F
  check_unit_interval v =
      if not (f.le (f.ratio 0 1) v && f.le v (f.ratio 1 1))
      then raise (failure (codes "value must be within [0.0, 1.0]"))
      else ok v

  -- The fields that are checked beyond their Python types, where `given` is the URL that was given
  -- for Redis; pydantic collects their errors into one.
  unfoldable pub validate :
      (redis_dsn : Text → Result Text) → (given : Option Text) → Settings F → Result (Settings F)
  unfolding check_unit_interval check_redis_url
  validate redis_dsn given s = and_then (check_redis_url redis_dsn given s.redis_url) (λ url.
      and_then (check_unit_interval s.similarity_threshold) (λ threshold.
        and_then (check_unit_interval s.validation_sample_rate) (λ rate.
          and_then (check_unit_interval s.near_miss_window) (λ window. ok (record s {
            redis_url = url;
            similarity_threshold = threshold;
            validation_sample_rate = rate;
            near_miss_window = window;
          })))))
