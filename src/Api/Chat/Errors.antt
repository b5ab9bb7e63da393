-- ===== src/Api/Chat/Errors.antt =====
-- What a client sees of an upstream error.
use llm_semantic_caching_lay.Prelude.{
  subst, inl, inr, Bool-cases, ◌⊎◌, ◌<◌, ◌≤◌, ltb, codes, [], arith, ℕ, ◌≡◌, refl, sym, ap, ◌∙◌,
  false, none, Option, Text, Exec, Result, ok, raise, Error, provider_error, if◌then◌else◌,
}
use llm_semantic_caching_lay.Float.{Float}
use llm_semantic_caching_lay.Models.Json.{str, obj, empty, field}
use llm_semantic_caching_lay.Models.Chat.{ChatCompletionRequest}
use llm_semantic_caching_lay.Embeddings.{EmbeddingService}
use llm_semantic_caching_lay.Cache.VectorStore.{VectorStore}
use llm_semantic_caching_lay.Cache.SemanticCache.{CacheLookup, is_hit}
use llm_semantic_caching_lay.Proxy.Service.{
  Completer, MetricsSink, Serializer, ProxyService, World, Readings, ProxyResult, served,
}
use llm_semantic_caching_lay.Proxy.Service.Outcomes.{
  looking, completing, complete-Completed, lookup_failed, from_cache, unreadable, upstream_failed,
  forwarded, keep_failed,
}
use llm_semantic_caching_lay.Core.Http.{Reply}
use llm_semantic_caching_lay.Api.Chat.{
  Content, json, error_status, get_tenant, error_reply, handle_errors, streamed, buffered,
  chat_completions, respond,
}

module _ {F S M : Type 0} ⦃f : Float F⦄ (store : VectorStore F S) (embeddings : EmbeddingService F)
    (hexdigest : Text → Text) (metrics : MetricsSink F M) (completer : Completer F)
    (models : Serializer F) (service : ProxyService F) (readings : Readings F)
    (header : Text → Option Text) (request : ChatCompletionRequest F) where
  abbrev pub responding : Exec (World F S M) (Reply (Content F))
  responding =
      respond store embeddings hexdigest metrics completer models service readings header request

  abbrev pub lookup_of : Exec S (CacheLookup F)
  lookup_of =
      looking store embeddings hexdigest metrics completer models service readings
        (get_tenant header) request

  abbrev completes : Exec (World F S M) (ProxyResult F)
  completes =
      completing store embeddings hexdigest metrics completer models service readings
        (get_tenant header) request

  missed_fails :
      (w : World F S M) (l : CacheLookup F) (s : S) (e : Error)
      → lookup_of w.store ≡ (ok l, s)
      → served store embeddings hexdigest metrics completer models service l ≡ none
      → completer.complete request ≡ raise e
      → ((completes w).0 ≡ raise e) × ((completes w).1.store ≡ s)
  missed_fails w l s e looked missed failed =
      elim (complete-Completed store embeddings hexdigest metrics completer models service readings
        (get_tenant header) request w) [
          | lookup_failed e' s' h _ _ ↦
              let same : Path (Result (CacheLookup F) × S) (ok l, s) (raise e', s') =
                sym looked ∙ h in
              absurd (cc)
          | from_cache l' s' best cached h found _ _ _ ↦
              let same : Path (Result (CacheLookup F) × S) (ok l, s) (ok l', s') = sym looked ∙ h in
              absurd (cc)
          | unreadable l' s' best e' h found _ _ _ ↦
              let same : Path (Result (CacheLookup F) × S) (ok l, s) (ok l', s') = sym looked ∙ h in
              absurd (cc)
          | upstream_failed l' s' e' h _ raised result left ↦
              let same : Path (Result (CacheLookup F) × S) (ok l, s) (ok l', s') = sym looked ∙ h in
              (cc, cc)
          | forwarded l' s' s'' response h _ given _ _ _ ↦ absurd (cc)
          | keep_failed l' s' s'' response e' h _ given _ _ _ ↦ absurd (cc)
        ]

  abbrev buffers : Exec (World F S M) (Reply (Content F))
  buffers =
      buffered store embeddings hexdigest metrics completer models service readings
        (get_tenant header) request

  responds_buffered :
      (w : World F S M)
      → request.stream ≡ false
      → responding w ≡ (handle_errors (buffers w).0, (buffers w).1)
  unfolding respond chat_completions
  responds_buffered w plain =
      ap
        (λ b.
          let route : Exec (World F S M) (Reply (Content F)) =
            if b
            then streamed store embeddings hexdigest metrics completer models service readings
                (get_tenant header) request
            else buffers in
          (handle_errors (route w).0, (route w).1))
        plain

  buffered_fails :
      (w v : World F S M) (e : Error) → completes w ≡ (raise e, v) → buffers w ≡ (raise e, v)
  unfolding buffered
  buffered_fails w v e failed = rw (buffered, failed) refl

  -- What a client gets of an upstream error: the status if it is below 500, and 502 otherwise.
  pub record IsErrorReply (message : Text) (status : ℕ) (provider : Text)
      (answer : Result (Reply (Content F))) : Type 0 where
    pub sent : ℕ
    pub answer_lem :
        answer
        ≡ ok (record {
          status = sent;
          headers = [];
          content = json (
              obj (
                field
                  (codes "error")
                  (obj (
                    field (codes "message") (str message) (
                      field
                        (codes "type")
                        (str (codes "provider_error"))
                        (field (codes "provider") (str provider) empty))))
                  empty));
        })
    pub passed_on : (status < 500 × (sent ≡ status)) ⊎ (500 ≤ status × (sent ≡ 502))

  error_reply-IsErrorReply :
      (message : Text) (status : ℕ) (provider : Text)
      → IsErrorReply message status provider (ok (error_reply message status provider))
  unfolding error_reply error_status
  error_reply-IsErrorReply message status provider = record {
    sent = error_status status;
    answer_lem = refl;
    passed_on = elim (Bool-cases (ltb status 500)) [
      | inl low ↦ inl (ground (arith, low), rw (error_status, low) refl)
      | inr high ↦ inr (ground (arith, high), rw (error_status, high) refl)
    ];
  }

  missed_served :
      (l : CacheLookup F)
      → is_hit l ≡ false
      → served store embeddings hexdigest metrics completer models service l ≡ none
  missed_served l h = rw h refl

  -- Where a request that does not stream misses the cache and its provider fails with a provider
  -- error, the client gets the error's message and provider in an OpenAI-style envelope, with the
  -- error's status if that is below 500 and 502 otherwise, and the store stays as the lookup left
  -- it.
  pub upstream_error-reply :
      (w : World F S M) (l : CacheLookup F) (s : S) (message : Text) (status : ℕ) (provider : Text)
      → request.stream ≡ false
      → lookup_of w.store ≡ (ok l, s)
      → is_hit l ≡ false
      → completer.complete request ≡ raise (provider_error message status provider)
      → IsErrorReply message status provider (responding w).0 × ((responding w).1.store ≡ s)
  unfolding handle_errors
  upstream_error-reply w l s message status provider plain looked missed failed =
      let e : Error = provider_error message status provider in
      let (raised, left) = missed_fails w l s e looked (missed_served l missed) failed in
      let fails : buffers w ≡ (raise e, (completes w).1) =
        buffered_fails w (completes w).1 e (ap (λ r. (r, (completes w).1)) raised) in
      (
        subst (IsErrorReply message status provider)
            (sym (ap (λ t. t.0) (responds_buffered w plain) ∙ ap (λ t. handle_errors t.0) fails))
            (error_reply-IsErrorReply message status provider),
        ap (λ t. t.1.store) (responds_buffered w plain) ∙ ap (λ t. t.1.store) fails ∙ left,
      )
