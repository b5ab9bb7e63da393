-- ===== src/Proxy/Service/Streams.antt =====
-- What a missed stream sends on, and what is kept of it.
use llm_semantic_caching_lay.Prelude.{
  ◌≡◌, refl, sym, ◌∙◌, inl, inr, Bool-cases, Option-cases, outcome_cases, result_cases, true, false,
  none, some, List, [], ◌∷◌, ◌++◌, append_assoc, append-nil, Text, Exec, Result, ok, raise, Error,
}
use llm_semantic_caching_lay.Float.{Float}
use llm_semantic_caching_lay.Models.Chat.{ChatCompletionRequest, ChatCompletionResponse}
use llm_semantic_caching_lay.Embeddings.{EmbeddingService}
use llm_semantic_caching_lay.Cache.VectorStore.{VectorStore}
use llm_semantic_caching_lay.Proxy.Streaming.{StreamAssembler, init, push, push_all}
use llm_semantic_caching_lay.Proxy.Streaming.Building.{build_response}
use llm_semantic_caching_lay.Proxy.Service.{
  Completer, MetricsSink, Serializer, ProxyService, Readings, keep_response,
}
use llm_semantic_caching_lay.Proxy.Service.Bodies.{relay, miss_body}

module _ {F S M : Type 0} ⦃f : Float F⦄ (store : VectorStore F S) (embeddings : EmbeddingService F)
    (hexdigest : Text → Text) (metrics : MetricsSink F M) (completer : Completer F)
    (models : Serializer F) (service : ProxyService F) where
  abbrev relaying : List Text → Exec (StreamAssembler F × List Text) (Unit {0})
  relaying = relay store embeddings hexdigest metrics completer models service

  relay-push_all :
      (cs : List Text) (a : StreamAssembler F) (sent : List Text)
      → ((relaying cs (a, sent)).0 ≡ (push_all models.loads cs a).0)
        × ((relaying cs (a, sent)).1.0 ≡ (push_all models.loads cs a).1)
  unfolding relay push_all
  relay-push_all [] a sent = (refl, refl)
  relay-push_all (c ∷ cs) a sent = elim (outcome_cases (push models.loads c a)) [
    | inl (u, b, e) ↦
        let (r, s) = relay-push_all cs b (sent ++ (c ∷ [])) in
        (rw (relay, push_all, e) r, rw (relay, push_all, e) s)
    | inr (x, b, e) ↦ (rw (relay, push_all, e) refl, rw (relay, push_all, e) refl)
  ]

  relay_sent :
      (cs : List Text) (a : StreamAssembler F) (sent : List Text)
      → (push_all models.loads cs a).0 ≡ ok tt
      → (relaying cs (a, sent)).1.1 ≡ sent ++ cs
  unfolding relay push_all
  relay_sent [] a sent h = rw append-nil refl
  relay_sent (c ∷ cs) a sent h = elim (outcome_cases (push models.loads c a)) [
    | inl (u, b, e) ↦
        let rest : (push_all models.loads cs b).0 ≡ ok tt = sym (rw (push_all, e) refl) ∙ h in
        rw (relay, e) (relay_sent cs b (sent ++ (c ∷ [])) rest ∙ append_assoc sent (c ∷ []) cs)
    | inr (x, b, e) ↦
        let stopped : Path (Result (Unit {0})) (raise x) (ok tt) =
          sym (rw (push_all, e) refl) ∙ h in
        absurd (cc)
  ]

  module _ (readings : Readings F) (tenant : Text) (request : ChatCompletionRequest F) where
    abbrev pub chunks : List Text
    chunks = (completer.stream request).0

    -- The chunks pushed into a new assembler.
    abbrev pub read : Result (Unit {0}) × StreamAssembler F
    read = push_all models.loads chunks (init request.model)

    abbrev pub body : Exec S (Unit {0})
    body =
        miss_body store embeddings hexdigest metrics completer models service readings tenant
          request

    -- What was sent on to the client.
    abbrev pub sent : List Text
    sent = (relaying chunks (init request.model, [])).1.1

    -- What reading the body to its end comes to.
    pub data Streamed (s : S) (t : Result (Unit {0}) × S) : Type 0 where
      unreadable : (e : Error) → read.0 ≡ raise e → t ≡ (raise e, s) → Streamed s t
      broken :
          (e : Error)
          → read.0 ≡ ok tt
          → sent ≡ chunks
          → (completer.stream request).1 ≡ some e
          → t ≡ (raise e, s)
          → Streamed s t
      incomplete :
          read.0 ≡ ok tt
          → sent ≡ chunks
          → (completer.stream request).1 ≡ none
          → read.1.assembled.completed ≡ false
          → t ≡ (ok tt, s)
          → Streamed s t
      invalid :
          (e : Error)
          → sent ≡ chunks
          → read.1.assembled.completed ≡ true
          → build_response models.fields readings.drawn_id readings.time read.1 ≡ raise e
          → t ≡ (raise e, s)
          → Streamed s t
      whole :
          (response : ChatCompletionResponse F)
          → sent ≡ chunks
          → (completer.stream request).1 ≡ none
          → read.1.assembled.completed ≡ true
          → build_response models.fields readings.drawn_id readings.time read.1 ≡ ok response
          → t
            ≡ keep_response store embeddings hexdigest metrics completer models service readings
                tenant request response s
          → Streamed s t

    -- Reading the body of a missed stream to its end sends on every chunk that came, unchanged,
    -- unless a chunk cannot be merged. The store stays as it is if that is so, if the provider
    -- breaks off with an exception, if no end mark came, or if the response is not valid; otherwise
    -- the assembled response is kept as a completion's is.
    pub miss_body-Streamed : (s : S) → Streamed s (body s)
    unfolding miss_body
    miss_body-Streamed s =
        let first = init request.model in
        let (same, same_state) = relay-push_all chunks first [] in
        elim (result_cases read.0) [
          | inr (e, stopped) ↦ unreadable e stopped (rw (miss_body, same, stopped) refl)
          | inl (u, finished) ↦
              let all_sent = relay_sent chunks first [] finished in
              elim (Option-cases (completer.stream request).1) [
                | inr (e, broke) ↦
                    broken e finished all_sent broke (rw (miss_body, same, finished, broke) refl)
                | inl ended ↦ elim (Bool-cases read.1.assembled.completed) [
                  | inr open_end ↦
                      incomplete finished all_sent ended open_end
                        (rw (miss_body, same, finished, ended, same_state, open_end) refl)
                  | inl closed ↦
                      elim (result_cases
                        (build_response models.fields readings.drawn_id readings.time read.1)) [
                          | inr (e, bad) ↦
                              invalid e all_sent closed bad (
                                rw (miss_body, same, finished, ended, same_state, closed, bad) refl)
                          | inl (response, built) ↦ whole response all_sent ended closed built (
                              rw (miss_body, same, finished, ended, same_state, closed, built) refl)
                        ]
                ]
              ]
        ]
