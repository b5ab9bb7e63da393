-- ===== src/Proxy/Service/Agreement.antt =====
-- `stream` and `complete`, on the same request.
use llm_semantic_caching_lay.Prelude.{
  ◌≡◌, refl, sym, ap, ◌∙◌, inl, inr, Option-cases, outcome_cases, result_cases, Text, Exec, Result,
  ok, raise, Error, pure, ◌>>=◌, arith,
}
use llm_semantic_caching_lay.Float.{Float}
use llm_semantic_caching_lay.Models.Chat.{ChatCompletionRequest}
use llm_semantic_caching_lay.Embeddings.{EmbeddingService}
use llm_semantic_caching_lay.Cache.VectorStore.{VectorStore}
use llm_semantic_caching_lay.Cache.SemanticCache.{hit, miss, CacheLookup}
use llm_semantic_caching_lay.Proxy.Service.{
  Completer, MetricsSink, Serializer, ProxyService, World, Readings, ProxyResult, record_near_miss,
  recorded, result_of, serve_hit, forward, served, answer, complete,
}
use llm_semantic_caching_lay.Proxy.Service.Bodies.{
  StreamResult, replayed, relayed, headers, stream_result, start, stream,
}
use llm_semantic_caching_lay.Proxy.Service.Outcomes.{looking, completing}

module _ {F S M : Type 0} ⦃f : Float F⦄ (store : VectorStore F S) (embeddings : EmbeddingService F)
    (hexdigest : Text → Text) (metrics : MetricsSink F M) (completer : Completer F)
    (models : Serializer F) (service : ProxyService F) (readings : Readings F) (tenant : Text)
    (request : ChatCompletionRequest F) where
  abbrev pub streaming : Exec (World F S M) (StreamResult F)
  streaming =
      stream store embeddings hexdigest metrics completer models service readings tenant request

  -- A completion that missed goes on from the world at hand.
  abbrev pub forwarding : CacheLookup F → Exec (World F S M) (ProxyResult F)
  forwarding l = do
    response ←
        forward store embeddings hexdigest metrics completer models service readings tenant request
    pure (
        result_of store embeddings hexdigest metrics completer models service request l miss
          response)

  -- How a streamed request `s` agrees with a completion `t` in the same world.
  pub data Agrees (w : World F S M) (s : Result (StreamResult F) × World F S M)
      (t : Result (ProxyResult F) × World F S M) : Type 0 where
    failed : (e : Error) → s.0 ≡ raise e → t.0 ≡ raise e → s.1 ≡ t.1 → Agrees w s t
    replays :
        (r : ProxyResult F)
        → t.0 ≡ ok r
        → r.cache_status ≡ hit
        → s.0
          ≡ ok (record {
            headers =
                headers hit r.similarity_score r.cache_latency_ms
                  (completer.resolve_provider request);
            body = replayed r.response;
            cache_status = hit;
          })
        → s.1 ≡ record (t.1) { scheduled = w.scheduled }
        → Agrees w s t
    relays :
        (l : CacheLookup F)
        → looking store embeddings hexdigest metrics completer models service readings tenant
            request w.store
          ≡ (ok l, s.1.store)
        → s.0
          ≡ ok (record {
            headers = headers miss l.score l.latency_ms (completer.resolve_provider request);
            body = relayed;
            cache_status = miss;
          })
        → t ≡ forwarding l s.1
        → Agrees w s t

  abbrev record_it : CacheLookup F → World F S M → World F S M
  record_it =
      recorded store embeddings hexdigest metrics completer models service readings tenant request

  recorded-kept :
      (l : CacheLookup F) (w : World F S M)
      → ((record_it l w).store ≡ w.store) × ((record_it l w).scheduled ≡ w.scheduled)
  unfolding recorded record_near_miss
  recorded-kept l w = (ground arith, ground arith)

  start-Agrees :
      (w v : World F S M) (l : CacheLookup F)
      → looking store embeddings hexdigest metrics completer models service readings tenant request
          w.store
        ≡ (ok l, v.store)
      → v.scheduled ≡ w.scheduled
      → Agrees w (start store embeddings hexdigest metrics completer models service request l v) (
          answer store embeddings hexdigest metrics completer models service readings tenant request
            l v)
  unfolding start answer serve_hit stream_result result_of
  start-Agrees w v l returned quiet =
      elim (Option-cases (served store embeddings hexdigest metrics completer models service l)) [
        | inl missed ↦
            relays l (rw (start, missed) returned) (rw (start, missed) refl)
              (rw (start, answer, missed) refl)
        | inr (best, found) ↦ elim (result_cases (models.model_validate best.entry.response)) [
          | inl (cached, valid) ↦
              replays
                (result_of store embeddings hexdigest metrics completer models service request l hit
                  cached)
                (rw (answer, found, serve_hit, valid) refl) refl (rw (start, found, valid) refl)
                (rw (start, answer, found, serve_hit, valid)
                  (ap
                    (λ q. record v {
                      metrics =
                          metrics.record_savings request.model cached.usage.prompt_tokens
                            cached.usage.completion_tokens v.metrics;
                      scheduled = q;
                    })
                    quiet))
          | inr (e, invalid) ↦
              failed e (rw (start, found, invalid) refl)
                (rw (answer, found, serve_hit, invalid) refl)
                (rw (start, answer, found, serve_hit, invalid) refl)
        ]
      ]

  -- A stream begins with the lookup that a completion begins with, and fails as it does: on a
  -- failed lookup or a stored response that cannot be read back, with the same error in the same
  -- world. Where the completion is answered of the cache, the stream's body is that response
  -- rendered, with the same score, latency and provider in the headers, and the worlds differ only
  -- in that the stream schedules no validation. Otherwise the body is the provider's stream, and
  -- the completion goes on, from the world that the stream left, to call the provider.
  pub stream-Agrees :
      (w : World F S M)
      → Agrees w (streaming w) (
          completing store embeddings hexdigest metrics completer models service readings tenant
            request w)
  unfolding stream complete
  stream-Agrees w =
      elim (outcome_cases (
        looking store embeddings hexdigest metrics completer models service readings tenant request
          w.store)) [
            | inr (e, s, stopped) ↦
                failed e (rw (stream, stopped) refl) (rw (complete, stopped) refl)
                  (rw (stream, complete, stopped) refl)
            | inl (l, s, returned) ↦
                let v : World F S M = record_it l (record w { store = s }) in
                let (same, quiet) = recorded-kept l (record w { store = s }) in
                rw (stream, complete, returned)
                  (start-Agrees w v l (returned ∙ ap (λ s. (ok l, s)) (sym same)) quiet)
          ]
