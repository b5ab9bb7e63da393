-- ===== src/Proxy/Service/Bodies.antt =====
-- app/proxy/service.py: `stream`. The body of its result is read later, so that a result holds which
-- body it is.
use llm_semantic_caching_lay.Prelude.{
  not, none, some, List, [], ◌∷◌, ◌++◌, Text, codes, Exec, Result, ok, raise, continue, ◌>>=◌, ◌>>◌,
  if◌then◌else◌,
}
use llm_semantic_caching_lay.Prelude.Dict.{Dict}
use llm_semantic_caching_lay.Float.{Float}
use llm_semantic_caching_lay.Models.Chat.{ChatCompletionRequest, ChatCompletionResponse}
use llm_semantic_caching_lay.Embeddings.{EmbeddingService}
use llm_semantic_caching_lay.Cache.VectorStore.{VectorStore}
use llm_semantic_caching_lay.Cache.SemanticCache.{CacheStatus, hit, miss, CacheLookup}
use llm_semantic_caching_lay.Proxy.Streaming.{StreamAssembler, init, push}
use llm_semantic_caching_lay.Proxy.Streaming.Building.{build_response}
use llm_semantic_caching_lay.Proxy.Streaming.Rendering.{response_to_sse}
use llm_semantic_caching_lay.Proxy.Service.{
  Completer, MetricsSink, Serializer, ProxyService, World, Readings, on_store, looked, recorded,
  served, status_value, keep_response,
}

-- `hit_body` of a cached response, or `miss_body`.
pub data Body (F : Type 0) : Type 0 where
  replayed : ChatCompletionResponse F → Body F
  relayed : Body F

pub record StreamResult (F : Type 0) : Type 0 where
  pub headers : Dict Text
  pub body : Body F
  pub cache_status : CacheStatus

unfoldable pub headers :
    {F : Type 0} ⦃f : Float F⦄ → CacheStatus → (score latency_ms : F) (provider : Text) → Dict Text
unfolding status_value
headers ⦃f⦄ status score latency_ms provider =
    (codes "X-Cache-Status", status_value status)
    ∷ (codes "X-Similarity-Score", f.fixed 4 score)
    ∷ (codes "X-Cache-Latency", f.fixed 3 latency_ms ++ codes "ms")
    ∷ (codes "X-Provider", provider)
    ∷ []

module _ {F S M : Type 0} ⦃f : Float F⦄ (store : VectorStore F S) (embeddings : EmbeddingService F)
    (hexdigest : Text → Text) (metrics : MetricsSink F M) (completer : Completer F)
    (models : Serializer F) (service : ProxyService F) where
  -- The loop over the chunks: each is pushed, then sent on.
  unfoldable pub relay : List Text → Exec (StreamAssembler F × List Text) (Unit {0})
  relay [] r = (ok tt, r)
  relay (c ∷ cs) (a, sent) =
      let pushed = push models.loads c a in
      continue (pushed.0, (pushed.1, sent)) (λ u r. relay cs (r.0, r.1 ++ (c ∷ [])))

  -- The body of a missed stream, read to its end: what was sent, and the response kept.
  unfoldable pub miss_body : Readings F → Text → ChatCompletionRequest F → Exec S (Unit {0})
  miss_body readings tenant request s =
      let chunks = completer.stream request in
      let read = relay chunks.0 (init request.model, []) in
      continue (read.0, s)
        (λ u. elim chunks.1 [
          | some e ↦ λ s. (raise e, s)
          | none ↦ λ s.
              if not read.1.0.assembled.completed
              then (ok tt, s)
              else continue
                  (build_response models.fields readings.drawn_id readings.time read.1.0, s)
                  (keep_response store embeddings hexdigest metrics completer models service
                    readings tenant request)
        ])

  -- The body of a hit, read to its end: what is sent.
  unfoldable pub hit_body : ChatCompletionResponse F → Result (List Text)
  hit_body cached = response_to_sse models.dumps cached

  unfoldable pub stream_result :
      ChatCompletionRequest F → CacheLookup F → CacheStatus → Body F → StreamResult F
  stream_result request l status body = record {
    headers = headers status l.score l.latency_ms (completer.resolve_provider request);
    body = body;
    cache_status = status;
  }

  -- What `stream` returns after the lookup. A streamed hit schedules no validation.
  unfoldable pub start :
      ChatCompletionRequest F → CacheLookup F → Exec (World F S M) (StreamResult F)
  start request l w = elim (served store embeddings hexdigest metrics completer models service l) [
    | none ↦ (ok (stream_result request l miss relayed), w)
    | some best ↦ elim (models.model_validate best.entry.response) [
      | raise e ↦ (raise e, w)
      | ok cached ↦ (
        ok (stream_result request l hit (replayed cached)),
        record w {
          metrics =
              metrics.record_savings request.model cached.usage.prompt_tokens
                cached.usage.completion_tokens w.metrics;
        },
      )
    ]
  ]

  unfoldable pub stream :
      Readings F → Text → ChatCompletionRequest F → Exec (World F S M) (StreamResult F)
  stream readings tenant request = do
    l ←
        on_store (
          looked store embeddings hexdigest metrics completer models service readings tenant
            request)
    (λ w. (
      ok tt,
      recorded store embeddings hexdigest metrics completer models service readings tenant request l
          w,
    ))
    start request l
