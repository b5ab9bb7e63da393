-- ===== src/Proxy/Service.antt =====
-- app/proxy/service.py: the request flow. What the clocks, `uuid4` and the sampling of a hit give is
-- an argument; log lines are left out.
pub mod State
pub mod Bodies
pub mod Outcomes
pub mod Caching
pub mod Expected
pub mod Agreement
pub mod Streams
unfoldable pub use State.*
use llm_semantic_caching_lay.Prelude.{
  ℕ, Bool, true, false, ◌&&◌, not, Option, none, some, List, [], ◌∷◌, ◌++◌, Text, codes, Exec,
  Result, ok, raise, Error, and_then, continue, pure, lift, ◌>>=◌, ◌>>◌, if◌then◌else◌,
}
use llm_semantic_caching_lay.Prelude.Int.{ℤ, pos, ltb_ℤ}
use llm_semantic_caching_lay.Float.{Float}
use llm_semantic_caching_lay.Models.Json.{Json, Fields}
use llm_semantic_caching_lay.Models.Chat.{
  ChatCompletionRequest, ChatCompletionResponse, system_prompt, latest_user_prompt,
}
use llm_semantic_caching_lay.Models.Entry.{ScoredEntry}
use llm_semantic_caching_lay.Embeddings.{EmbeddingService}
use llm_semantic_caching_lay.Analytics.NearMiss.{NearMissTracker, record_event}
use llm_semantic_caching_lay.Cache.Namespace.{RequestSignature, namespace}
use llm_semantic_caching_lay.Cache.VectorStore.{VectorStore}
use llm_semantic_caching_lay.Cache.SemanticCache.{
  CacheStatus, hit, miss, CacheLookup, is_hit, SemanticCache, LookupClock, Fresh, Storing, lookup,
  store_response,
}
use llm_semantic_caching_lay.Proxy.Streaming.{StreamAssembler, Pydantic, init, push}
use llm_semantic_caching_lay.Proxy.Streaming.Building.{build_response}

module _ {F S M : Type 0} ⦃f : Float F⦄ (store : VectorStore F S) (embeddings : EmbeddingService F)
    (hexdigest : Text → Text) (metrics : MetricsSink F M) (completer : Completer F)
    (models : Serializer F) (service : ProxyService F) where
  -- The signature of a request of a tenant.
  abbrev pub signed : Text → ChatCompletionRequest F → RequestSignature F
  signed tenant request = signature_of request tenant (completer.resolve_provider request)

  -- `_record_near_miss`, with the default threshold where the request has none.
  unfoldable pub record_near_miss :
      F → CacheLookup F → RequestSignature F → Text → Option F → World F S M → World F S M
  record_near_miss time l signature prompt threshold w =
      let limit : F = elim threshold [ none ↦ service.cache.threshold | some t ↦ t ] in
      elim w.near_miss [
        | none ↦ w
        | some tracker ↦
            if l.near_miss
            then record w {
              near_miss =
                  some (
                    record_event l.score limit (namespace hexdigest signature) prompt time tracker);
            }
            else w
      ]

  -- What is recorded of every lookup.
  unfoldable pub recorded :
      Readings F → Text → ChatCompletionRequest F → CacheLookup F → World F S M → World F S M
  unfolding status_value
  recorded readings tenant request l w =
      record_near_miss readings.near_miss_time l (signed tenant request)
        (latest_user_prompt request) (threshold_for service request)
        (record w {
          metrics =
              metrics.record_lookup (status_value l.status) (completer.resolve_provider request)
                request.model l.score l.latency_ms w.metrics;
        })

  unfoldable pub result_of :
      ChatCompletionRequest F
      → CacheLookup F
      → CacheStatus
      → ChatCompletionResponse F
      → ProxyResult F
  result_of request l status response = record {
    response = response;
    cache_status = status;
    similarity_score = l.score;
    cache_latency_ms = l.latency_ms;
    provider = completer.resolve_provider request;
  }

  -- The arguments of `store_response`.
  unfoldable pub storing : ChatCompletionRequest F → ChatCompletionResponse F → Storing F
  unfolding latest_user_prompt
  storing request response = record {
    prompt = latest_user_prompt request;
    response = models.model_dump response;
    ttl_seconds = (resolve_policy service request response).0;
    tags = (resolve_policy service request response).1;
    metadata = Fields.empty;
    prompt_tokens = response.usage.prompt_tokens;
    completion_tokens = response.usage.completion_tokens;
  }

  -- Kept where the policy gives a positive time to live.
  unfoldable pub keep_response :
      Readings F → Text → ChatCompletionRequest F → ChatCompletionResponse F → Exec S (Unit {0})
  keep_response readings tenant request response s =
      if ltb_ℤ (pos 0) (resolve_policy service request response).0
      then continue
          (store_response store embeddings hexdigest service.cache readings.fresh
            (signed tenant request) (storing request response) s)
          (λ entry. pure tt)
      else (ok tt, s)

  -- `model_validate` of the match, the savings, and the scheduled validation.
  unfoldable pub serve_hit :
      Readings F
      → ChatCompletionRequest F
      → ScoredEntry F
      → Exec (World F S M) (ChatCompletionResponse F)
  serve_hit readings request best w = elim (models.model_validate best.entry.response) [
    | raise e ↦ (raise e, w)
    | ok cached ↦ (
      ok cached,
      record w {
        metrics =
            metrics.record_savings request.model cached.usage.prompt_tokens
              cached.usage.completion_tokens w.metrics;
        scheduled = if readings.sampled then (request, cached) ∷ w.scheduled else w.scheduled;
      },
    )
  ]

  unfoldable pub forward :
      Readings F → Text → ChatCompletionRequest F → Exec (World F S M) (ChatCompletionResponse F)
  forward readings tenant request = do
    response ← lift (completer.complete request)
    (λ w. (
      ok tt,
      record w {
        metrics =
            metrics.record_provider_latency (completer.resolve_provider request)
              readings.provider_latency w.metrics;
      },
    ))
    on_store (keep_response readings tenant request response)
    pure response

  -- The match that is served: that of a hit.
  abbrev pub served : CacheLookup F → Option (ScoredEntry F)
  served l = if is_hit l then l.match else none

  unfoldable pub answer :
      Readings F
      → Text
      → ChatCompletionRequest F
      → CacheLookup F
      → Exec (World F S M) (ProxyResult F)
  answer readings tenant request l = elim (served l) [
    | some best ↦ do cached ← serve_hit readings request best; pure (result_of request l hit cached)
    | none ↦ do response ← forward readings tenant request; pure (result_of request l miss response)
  ]

  abbrev pub looked : Readings F → Text → ChatCompletionRequest F → Exec S (CacheLookup F)
  looked readings tenant request =
      lookup store embeddings hexdigest service.cache readings.lookup (signed tenant request)
        (latest_user_prompt request) (threshold_for service request)

  unfoldable pub complete :
      Readings F → Text → ChatCompletionRequest F → Exec (World F S M) (ProxyResult F)
  complete readings tenant request = do
    l ← on_store (looked readings tenant request)
    (λ w. (ok tt, recorded readings tenant request l w))
    answer readings tenant request l
