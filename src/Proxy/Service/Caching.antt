-- ===== src/Proxy/Service/Caching.antt =====
-- A completion over the in-memory store: the cases of its lookup, its provider and its policy.
use llm_semantic_caching_lay.Prelude.{
  ◌<◌, ◌≡◌, refl, sym, ap, subst, inl, inr, true, false, Bool, Bool-cases, Option, Option-cases,
  result_cases, none, some, List, length, All, Text, Exec, Result, ok,
}
use llm_semantic_caching_lay.Prelude.Dict
use llm_semantic_caching_lay.Prelude.Int.{ℤ, pos, ltb_ℤ}
use llm_semantic_caching_lay.Float.{Float, IsOrdered}
use llm_semantic_caching_lay.Models.Chat.{
  ChatCompletionRequest, ChatCompletionResponse, latest_user_prompt,
}
use llm_semantic_caching_lay.Models.Entry.{CacheEntry, ScoredEntry}
use llm_semantic_caching_lay.Embeddings.{EmbeddingService, EmbeddingResult}
use llm_semantic_caching_lay.Cache.Namespace.{RequestSignature}
use llm_semantic_caching_lay.Cache.Numpy.{Numpy, IsNumpy}
use llm_semantic_caching_lay.Cache.MemoryStore.{
  InMemoryVectorStore, in_memory, upsert, increment_hit,
}
use llm_semantic_caching_lay.Cache.SemanticCache.{
  CacheStatus, hit, miss, CacheLookup, is_hit, effective, entry_of, store_response,
}
use llm_semantic_caching_lay.Cache.SemanticCache.Best.{
  IsBest, report, nothing, reached, missed, lookup-Looked,
}
use llm_semantic_caching_lay.Proxy.Service.{
  Completer, MetricsSink, Serializer, ProxyService, World, Readings, ProxyResult, recorded,
  result_of, storing, keep_response, serve_hit, forward, answer, looked, complete, signature_of,
  threshold_for, resolve_policy,
}
use llm_semantic_caching_lay.Proxy.Service.Outcomes.{recorded-store}
use llm_semantic_caching_lay.Proxy.Service.Expected
use llm_semantic_caching_lay.Proxy.Service.Expected.{
  Unmatched, none_usable, below, Cached, from_cache, unreadable, upstream_failed, kept, not_kept,
}

module _ {F M : Type 0} ⦃f : Float F⦄ (np : Numpy F) (embeddings : EmbeddingService F)
    (hexdigest : Text → Text) (metrics : MetricsSink F M) (completer : Completer F)
    (models : Serializer F) (service : ProxyService F) (readings : Readings F) (tenant : Text)
    (request : ChatCompletionRequest F) (embedding : EmbeddingResult F)
    (w : World F (InMemoryVectorStore F) M) where
  abbrev signature : RequestSignature F
  signature =
      Expected.signature np embeddings hexdigest metrics completer models service readings tenant
        request embedding w

  abbrev usable : List (CacheEntry F)
  usable =
      Expected.usable np embeddings hexdigest metrics completer models service readings tenant
        request embedding w

  abbrev limit : F
  limit =
      Expected.limit np embeddings hexdigest metrics completer models service readings tenant
        request embedding w

  abbrev decided : ChatCompletionResponse F → ℤ × List Text
  decided =
      Expected.decided np embeddings hexdigest metrics completer models service readings tenant
        request embedding w

  abbrev answered : CacheStatus → F → ChatCompletionResponse F → ProxyResult F
  answered =
      Expected.answered np embeddings hexdigest metrics completer models service readings tenant
        request embedding w

  abbrev entry_for : ChatCompletionResponse F → CacheEntry F
  entry_for =
      Expected.entry_for np embeddings hexdigest metrics completer models service readings tenant
        request embedding w

  abbrev completing : Result (ProxyResult F) × World F (InMemoryVectorStore F) M
  completing =
      Expected.completing np embeddings hexdigest metrics completer models service readings tenant
        request embedding w

  abbrev IsUnmatched : F → Type 0
  IsUnmatched =
      Unmatched np embeddings hexdigest metrics completer models service readings tenant request
        embedding w

  abbrev IsOutcome : Result (ProxyResult F) × World F (InMemoryVectorStore F) M → Type 0
  IsOutcome =
      Cached np embeddings hexdigest metrics completer models service readings tenant request
        embedding w

  abbrev answering :
      CacheLookup F
      → World F (InMemoryVectorStore F) M
      → Result (ProxyResult F) × World F (InMemoryVectorStore F) M
  answering l v =
      answer (in_memory np) embeddings hexdigest metrics completer models service readings tenant
        request l v

  abbrev reporting : CacheStatus → Option (ScoredEntry F) → Bool → CacheLookup F
  reporting =
      report np embeddings hexdigest service.cache readings.lookup signature
        (latest_user_prompt request) (threshold_for service request) w.store embedding

  limit_lem :
      effective (in_memory np) embeddings hexdigest service.cache (threshold_for service request)
      ≡ limit
  unfolding effective threshold_for
  limit_lem = elim (Option-cases service.threshold_policy) [
    | inl e ↦ rw (effective, threshold_for, e) refl
    | inr (policy, e) ↦ elim (Option-cases (policy request)) [
      | inl g ↦ rw (effective, threshold_for, e, g) refl
      | inr (t, g) ↦ rw (effective, threshold_for, e, g) refl
    ]
  ]

  on_hit :
      (r : ScoredEntry F) (v : World F (InMemoryVectorStore F) M)
      → IsBest np embedding.vector usable r
      → f.le limit r.score ≡ true
      → v.store ≡ (increment_hit r.entry.id w.store).1
      → IsOutcome (answering (reporting hit (some r) false) v)
  unfolding answer serve_hit result_of is_hit
  on_hit r v best within left = elim (result_cases (models.model_validate r.entry.response)) [
    | inl (response, valid) ↦
        from_cache r response best within valid (rw (answer, serve_hit, valid) refl)
          (rw (answer, serve_hit, valid) left)
    | inr (e, invalid) ↦
        unreadable r e best within invalid (rw (answer, serve_hit, invalid) refl)
          (rw (answer, serve_hit, invalid) left)
  ]

  abbrev keeping : ChatCompletionResponse F → Exec (InMemoryVectorStore F) (Unit {0})
  keeping =
      keep_response (in_memory np) embeddings hexdigest metrics completer models service readings
        tenant request

  module _ (embedded : embeddings.embed (latest_user_prompt request) ≡ ok embedding) where
    keeping_kept :
        (response : ChatCompletionResponse F) (s : InMemoryVectorStore F)
        → ltb_ℤ (pos 0) (decided response).0 ≡ true
        → keeping response s
          ≡ (ok tt, record { entries = Dict.put s.entries readings.fresh.id (entry_for response) })
    unfolding keep_response resolve_policy store_response entry_of in_memory upsert storing
        signature_of
    keeping_kept response s long_lived =
        rw (keep_response, long_lived, store_response, embedded) refl

    keeping_nothing :
        (response : ChatCompletionResponse F) (s : InMemoryVectorStore F)
        → ltb_ℤ (pos 0) (decided response).0 ≡ false
        → keeping response s ≡ (ok tt, s)
    unfolding keep_response resolve_policy
    keeping_nothing response s expired = rw (keep_response, expired) refl

    on_miss :
        (best : Option (ScoredEntry F)) (near : Bool) (score : F)
        (v : World F (InMemoryVectorStore F) M)
        → IsUnmatched score
        → (reporting miss best near).score ≡ score
        → v.store ≡ w.store
        → IsOutcome (answering (reporting miss best near) v)
    unfolding answer forward result_of is_hit
    on_miss best near score v unmatched own left =
        elim (result_cases (completer.complete request)) [
          | inr (e, failed) ↦
              upstream_failed score e unmatched failed (rw (answer, forward, failed) refl)
                (rw (answer, forward, failed) left)
          | inl (response, given) ↦ elim (Bool-cases (ltb_ℤ (pos 0) (decided response).0)) [
            | inl long_lived ↦
                kept score response unmatched given long_lived
                  (rw (answer, forward, given, keeping_kept response v.store long_lived)
                    (ap (λ x. ok (answered miss x response)) own))
                  (rw (answer, forward, given, keeping_kept response v.store long_lived)
                    (ap
                      (λ s. record {
                        entries = Dict.put s.entries readings.fresh.id (entry_for response);
                      })
                      left))
            | inr expired ↦
                not_kept score response unmatched given expired
                  (rw (answer, forward, given, keeping_nothing response v.store expired)
                    (ap (λ x. ok (answered miss x response)) own))
                  (rw (answer, forward, given, keeping_nothing response v.store expired) left)
          ]
        ]

    -- What is recorded of a lookup leaves the store alone.
    abbrev noted : CacheLookup F → InMemoryVectorStore F → World F (InMemoryVectorStore F) M
    noted l s =
        recorded (in_memory np) embeddings hexdigest metrics completer models service readings
          tenant request l (record w { store = s })

    noted_lem : (l : CacheLookup F) (s : InMemoryVectorStore F) → (noted l s).store ≡ s
    noted_lem l s =
        recorded-store (in_memory np) embeddings hexdigest metrics completer models service readings
          tenant request l (record w { store = s })

    goes_on :
        (l : CacheLookup F) (s : InMemoryVectorStore F)
        → looked
            (in_memory np)
            embeddings
            hexdigest
            metrics
            completer
            models
            service
            readings
            tenant
            request
            w.store
          ≡ (ok l, s)
        → completing ≡ answering l (noted l s)
    unfolding complete
    goes_on l s returned = rw (complete, returned) refl

    -- A completion over the in-memory store, for a prompt that can be embedded and at least one
    -- candidate, where the usable entries (those of the request's namespace that have not expired)
    -- have embeddings of the prompt's length, which is not zero. If the best score of a usable
    -- entry is at least the threshold, the answer is that entry's response, read back, whatever
    -- the provider would do, the entry has one hit more, and a response that cannot be read back is
    -- raised. Otherwise the answer is the provider's: its exception, with the store as it was, or
    -- its response, and that is stored with the request's namespace, the prompt's embedding, and
    -- the time to live and the tags of the policy if that time is positive, while the store stays
    -- as it was if it is not.
    pub complete-Cached :
        IsNumpy np
        → IsOrdered f
        → 0 < length embedding.vector
        → 0 < service.cache.top_k
        → All (λ e. length e.embedding ≡ length embedding.vector) usable
        → IsOutcome completing
    unfolding signature_of
    complete-Cached h o long some_asked fits =
        elim (lookup-Looked np embeddings hexdigest service.cache readings.lookup signature
          (latest_user_prompt request) (threshold_for service request) w.store embedding h o
          embedded some_asked long fits) [
            | nothing none_live returned ↦ subst IsOutcome (sym (goes_on _ w.store returned)) (
                on_miss none false _ (noted _ w.store) (none_usable none_live refl) refl
                  (noted_lem _ w.store))
            | reached r best within returned ↦ subst IsOutcome (sym (goes_on _ _ returned)) (
                on_hit r (noted _ _) best (subst (λ x. f.le x r.score ≡ true) limit_lem within)
                  (noted_lem _ _))
            | missed r near best beyond returned ↦
                let not_within : f.le limit r.score ≡ false =
                  subst (λ x. f.le x r.score ≡ false) limit_lem beyond in
                subst IsOutcome (sym (goes_on _ w.store returned)) (
                  on_miss (some r) near r.score (noted _ w.store) (below r best not_within refl)
                    refl (noted_lem _ w.store))
          ]
