-- ===== src/Proxy/Service/Outcomes.antt =====
-- What a request comes to, and what is kept.
use llm_semantic_caching_lay.Prelude.{
  ◌≡◌, refl, sym, ap, ◌∙◌, inl, inr, Option-cases, outcome_cases, result_cases, none, some, Text,
  Exec, Result, ok, raise, Error, arith,
}
use llm_semantic_caching_lay.Float.{Float}
use llm_semantic_caching_lay.Models.Chat.{ChatCompletionRequest, ChatCompletionResponse}
use llm_semantic_caching_lay.Models.Entry.{ScoredEntry}
use llm_semantic_caching_lay.Embeddings.{EmbeddingService}
use llm_semantic_caching_lay.Cache.VectorStore.{VectorStore}
use llm_semantic_caching_lay.Cache.SemanticCache.{hit, miss, CacheLookup}
use llm_semantic_caching_lay.Proxy.Service.{
  Completer, MetricsSink, Serializer, ProxyService, World, Readings, ProxyResult, record_near_miss,
  recorded, result_of, keep_response, serve_hit, forward, served, answer, looked, complete,
}

module _ {F S M : Type 0} ⦃f : Float F⦄ (store : VectorStore F S) (embeddings : EmbeddingService F)
    (hexdigest : Text → Text) (metrics : MetricsSink F M) (completer : Completer F)
    (models : Serializer F) (service : ProxyService F) (readings : Readings F) (tenant : Text)
    (request : ChatCompletionRequest F) where
  -- The lookup, what is kept of a response, and the completion, of this service.
  abbrev pub looking : Exec S (CacheLookup F)
  looking =
      looked store embeddings hexdigest metrics completer models service readings tenant request

  abbrev pub keeping : ChatCompletionResponse F → Exec S (Unit {0})
  keeping =
      keep_response store embeddings hexdigest metrics completer models service readings tenant
        request

  abbrev pub completing : Exec (World F S M) (ProxyResult F)
  completing =
      complete store embeddings hexdigest metrics completer models service readings tenant request

  abbrev pub resulting : CacheLookup F → ChatCompletionResponse F → ProxyResult F
  resulting l response =
      result_of store embeddings hexdigest metrics completer models service request l
        (elim (served store embeddings hexdigest metrics completer models service l) [
          | none ↦ miss
          | some best ↦ hit
        ])
        response

  -- What a completion comes to: its answer, and the store it leaves.
  pub data Completed (w : World F S M) (t : Result (ProxyResult F) × World F S M) : Type 0 where
    lookup_failed :
        (e : Error) (s : S)
        → looking w.store ≡ (raise e, s)
        → t.0 ≡ raise e
        → t.1.store ≡ s
        → Completed w t
    from_cache :
        (l : CacheLookup F) (s : S) (best : ScoredEntry F) (cached : ChatCompletionResponse F)
        → looking w.store ≡ (ok l, s)
        → served store embeddings hexdigest metrics completer models service l ≡ some best
        → models.model_validate best.entry.response ≡ ok cached
        → t.0 ≡ ok (resulting l cached)
        → t.1.store ≡ s
        → Completed w t
    unreadable :
        (l : CacheLookup F) (s : S) (best : ScoredEntry F) (e : Error)
        → looking w.store ≡ (ok l, s)
        → served store embeddings hexdigest metrics completer models service l ≡ some best
        → models.model_validate best.entry.response ≡ raise e
        → t.0 ≡ raise e
        → t.1.store ≡ s
        → Completed w t
    upstream_failed :
        (l : CacheLookup F) (s : S) (e : Error)
        → looking w.store ≡ (ok l, s)
        → served store embeddings hexdigest metrics completer models service l ≡ none
        → completer.complete request ≡ raise e
        → t.0 ≡ raise e
        → t.1.store ≡ s
        → Completed w t
    forwarded :
        (l : CacheLookup F) (s s' : S) (response : ChatCompletionResponse F)
        → looking w.store ≡ (ok l, s)
        → served store embeddings hexdigest metrics completer models service l ≡ none
        → completer.complete request ≡ ok response
        → keeping response s ≡ (ok tt, s')
        → t.0 ≡ ok (resulting l response)
        → t.1.store ≡ s'
        → Completed w t
    keep_failed :
        (l : CacheLookup F) (s s' : S) (response : ChatCompletionResponse F) (e : Error)
        → looking w.store ≡ (ok l, s)
        → served store embeddings hexdigest metrics completer models service l ≡ none
        → completer.complete request ≡ ok response
        → keeping response s ≡ (raise e, s')
        → t.0 ≡ raise e
        → t.1.store ≡ s'
        → Completed w t

  abbrev record_it : CacheLookup F → World F S M → World F S M
  record_it =
      recorded store embeddings hexdigest metrics completer models service readings tenant request

  pub recorded-store : (l : CacheLookup F) (w : World F S M) → (record_it l w).store ≡ w.store
  unfolding recorded record_near_miss
  recorded-store l w = ground arith

  -- The answer to a lookup that returned.
  answer_lem :
      (w v : World F S M) (l : CacheLookup F)
      → looking w.store ≡ (ok l, v.store)
      → Completed w (
          answer store embeddings hexdigest metrics completer models service readings tenant request
            l v)
  unfolding answer serve_hit forward
  answer_lem w v l looked_up =
      elim (Option-cases (served store embeddings hexdigest metrics completer models service l)) [
        | inl missed ↦ elim (result_cases (completer.complete request)) [
          | inr (x, failed) ↦
              upstream_failed l v.store x looked_up missed failed
                (rw (answer, missed, forward, failed) refl)
                (rw (answer, missed, forward, failed) refl)
          | inl (response, given) ↦ elim (outcome_cases (keeping response v.store)) [
            | inl (u, s', kept) ↦
                forwarded l v.store s' response looked_up missed given kept
                  (rw (answer, missed, forward, given, kept) refl)
                  (rw (answer, missed, forward, given, kept) refl)
            | inr (x, s', kept) ↦
                keep_failed l v.store s' response x looked_up missed given kept
                  (rw (answer, missed, forward, given, kept) refl)
                  (rw (answer, missed, forward, given, kept) refl)
          ]
        ]
        | inr (best, found) ↦ elim (result_cases (models.model_validate best.entry.response)) [
          | inl (cached, valid) ↦
              from_cache l v.store best cached looked_up found valid
                (rw (answer, found, serve_hit, valid) refl)
                (rw (answer, found, serve_hit, valid) refl)
          | inr (x, invalid) ↦
              unreadable l v.store best x looked_up found invalid
                (rw (answer, found, serve_hit, invalid) refl)
                (rw (answer, found, serve_hit, invalid) refl)
        ]
      ]

  -- A completion looks up first. If that raises, so does the completion. If the lookup hits, the
  -- answer is the stored response, read back, whatever the provider would do; if it cannot be read
  -- back, that is raised. Otherwise the answer is the provider's: its exception, with the store as
  -- the lookup left it, or its response, which is kept if the policy gives a positive time to live.
  pub complete-Completed : (w : World F S M) → Completed w (completing w)
  unfolding complete
  complete-Completed w = elim (outcome_cases (looking w.store)) [
    | inr (e, s, failed) ↦
        lookup_failed e s failed (rw (complete, failed) refl) (rw (complete, failed) refl)
    | inl (l, s, returned) ↦
        let v : World F S M = record_it l (record w { store = s }) in
        let same : v.store ≡ s = recorded-store l (record w { store = s }) in
        rw (complete, returned) (answer_lem w v l (returned ∙ ap (λ s. (ok l, s)) (sym same)))
  ]
