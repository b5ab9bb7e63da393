-- ===== src/Proxy/Service/State.antt =====
-- app/proxy/service.py: the objects that the request flow is made of, and what it changes.
use llm_semantic_caching_lay.Prelude.{
  Bool, Option, none, some, List, [], Text, codes, Exec, Result, Error,
}
use llm_semantic_caching_lay.Prelude.Int.{ℤ}
use llm_semantic_caching_lay.Models.Json.{Json}
use llm_semantic_caching_lay.Models.Chat.{
  ChatCompletionRequest, ChatCompletionResponse, system_prompt,
}
use llm_semantic_caching_lay.Analytics.NearMiss.{NearMissTracker}
use llm_semantic_caching_lay.Cache.Namespace.{RequestSignature}
use llm_semantic_caching_lay.Cache.SemanticCache.{
  CacheStatus, hit, miss, SemanticCache, LookupClock, Fresh,
}
use llm_semantic_caching_lay.Proxy.Streaming.{Pydantic}

-- What a provider, or a router, answers to a request: a completion, or the chunks of a stream and
-- the exception that may end it.
pub record Completer (F : Type 0) : Type 0 where
  pub resolve_provider : ChatCompletionRequest F → Text
  pub complete : ChatCompletionRequest F → Result (ChatCompletionResponse F)
  pub stream : ChatCompletionRequest F → List Text × Option Error

-- The calls of a `MetricsSink` that the flow makes.
pub record MetricsSink (F M : Type 0) : Type 0 where
  pub record_lookup : (status provider model : Text) (similarity latency_ms : F) → M → M
  pub record_provider_latency : Text → F → M → M
  pub record_savings : Text → (prompt_tokens completion_tokens : ℤ) → M → M

-- `model_dump` and `model_validate` of a response, `orjson.loads` and `orjson.dumps`.
pub record Serializer (F : Type 0) : Type 0 where
  pub model_dump : ChatCompletionResponse F → Json F
  pub model_validate : Json F → Result (ChatCompletionResponse F)
  pub loads : Text → Option (Json F)
  pub dumps : Json F → Result Text
  pub fields : Pydantic F

pub record ProxyService (F : Type 0) : Type 0 where
  pub cache : SemanticCache F
  pub default_ttl : ℤ
  pub ttl_policy : Option (ChatCompletionRequest F → ChatCompletionResponse F → ℤ × List Text)
  pub threshold_policy : Option (ChatCompletionRequest F → Option F)

-- What the flow changes. A validation is scheduled, with the request and the cached response.
pub record World (F S M : Type 0) : Type 0 where
  pub store : S
  pub metrics : M
  pub near_miss : Option (NearMissTracker F)
  pub scheduled : List (ChatCompletionRequest F × ChatCompletionResponse F)

pub record Readings (F : Type 0) : Type 0 where
  pub lookup : LookupClock F
  pub near_miss_time : F
  -- whether there is a validator, and it samples this hit
  pub sampled : Bool
  pub provider_latency : F
  pub fresh : Fresh F
  pub drawn_id : Text
  pub time : ℤ

pub record ProxyResult (F : Type 0) : Type 0 where
  pub response : ChatCompletionResponse F
  pub cache_status : CacheStatus
  pub similarity_score : F
  pub cache_latency_ms : F
  pub provider : Text

unfoldable pub status_value : CacheStatus → Text
status_value hit = codes "HIT"
status_value miss = codes "MISS"

module _ {F : Type 0} where
  unfoldable pub signature_of : ChatCompletionRequest F → Text → Text → RequestSignature F
  unfolding system_prompt
  signature_of request tenant provider = record {
    model = request.model;
    provider = provider;
    system_prompt = system_prompt request;
    temperature = request.temperature;
    max_tokens = request.max_tokens;
    tenant = tenant;
  }

  unfoldable pub threshold_for : ProxyService F → ChatCompletionRequest F → Option F
  threshold_for service request = elim service.threshold_policy [
    | none ↦ none
    | some policy ↦ policy request
  ]

  unfoldable pub resolve_policy :
      ProxyService F → ChatCompletionRequest F → ChatCompletionResponse F → ℤ × List Text
  resolve_policy service request response = elim service.ttl_policy [
    | some policy ↦ policy request response
    | none ↦ (service.default_ttl, elim request.cache_tags [ none ↦ [] | some tags ↦ tags ])
  ]

  abbrev pub on_store : {S M A : Type 0} → Exec S A → Exec (World F S M) A
  on_store m w = let r = m w.store in (r.0, record w { store = r.1 })
