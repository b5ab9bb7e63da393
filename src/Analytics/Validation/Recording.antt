-- ===== src/Analytics/Validation/Recording.antt =====
-- `validate` of app/analytics/validation.py with a metrics sink, here CacheMetrics: the rates that
-- are shown after validations.
use llm_semantic_caching_lay.Prelude.{
  ◌≡◌, ◌⊎◌, refl, sym, ap, inl, inr, outcome_cases, result_cases, subst, List, [], ◌∷◌, Exec,
  Result, ok, raise, Error,
}
use llm_semantic_caching_lay.Float.{Float}
use llm_semantic_caching_lay.Models.Chat.{ChatCompletionRequest, ChatCompletionResponse, first_text}
use llm_semantic_caching_lay.Embeddings.{EmbeddingService}
use llm_semantic_caching_lay.Cache.Numpy.{Numpy}
use llm_semantic_caching_lay.Cache.Similarity.{cosine_similarity}
use llm_semantic_caching_lay.Monitoring.Metrics.{CacheMetrics, record_validation}
use llm_semantic_caching_lay.Analytics.Validation.{
  ValidationResult, CacheValidator, init, stats, validate,
}

module _ {F : Type 0} ⦃f : Float F⦄ (np : Numpy F) (service : EmbeddingService F)
    (complete : ChatCompletionRequest F → Result (ChatCompletionResponse F)) where
  unfoldable pub record_stats : CacheValidator F → CacheMetrics F → CacheMetrics F
  unfolding stats record_validation
  record_stats v m =
      record_validation (stats v).cache_validation_accuracy (stats v).semantic_drift_rate
        (stats v).false_hit_rate m

  -- A validation that comes to a result records the rates; one that raises does not.
  unfoldable pub settle :
      CacheMetrics F
      → Result (ValidationResult F) × CacheValidator F
      → Result (ValidationResult F) × (CacheValidator F × CacheMetrics F)
  unfolding record_stats
  settle m (ok r, v) = (ok r, (v, record_stats v m))
  settle m (raise e, v) = (raise e, (v, m))

  unfoldable pub validate_recorded :
      ChatCompletionRequest F
      → ChatCompletionResponse F
      → Exec (CacheValidator F × CacheMetrics F) (ValidationResult F)
  unfolding settle validate
  validate_recorded request cached (v, m) = settle m (validate np service complete request cached v)

  -- The gauges show the rates of the validator.
  pub record IsShown (v : CacheValidator F) (m : CacheMetrics F) : Type 0 where
    pub accuracy : m.validation_accuracy ≡ (stats v).cache_validation_accuracy
    pub drift_rate : m.semantic_drift_rate ≡ (stats v).semantic_drift_rate
    pub false_rate : m.false_hit_rate ≡ (stats v).false_hit_rate

  abbrev pub replayed :
      List (ChatCompletionRequest F × ChatCompletionResponse F)
      → CacheValidator F × CacheMetrics F
      → CacheValidator F × CacheMetrics F
  replayed [] t = t
  replayed ((request, cached) ∷ more) t = replayed more (validate_recorded request cached t).1

  record_stats-IsShown : (v : CacheValidator F) (m : CacheMetrics F) → IsShown v (record_stats v m)
  unfolding record_stats record_validation
  record_stats-IsShown v m = record { accuracy = refl; drift_rate = refl; false_rate = refl }

  raising_left :
      (request : ChatCompletionRequest F) (cached : ChatCompletionResponse F)
      (v u : CacheValidator F) (e : Error)
      → validate np service complete request cached v ≡ (raise e, u)
      → u ≡ v
  unfolding validate
  raising_left request cached v u e h = elim (result_cases (complete request)) [
    | inr (x, a) ↦ ap (λ t. t.1) (sym (rw a at h))
    | inl (fresh, a) ↦ elim (result_cases (service.embed (first_text cached))) [
      | inr (x, b) ↦ ap (λ t. t.1) (sym (rw (a, b) at h))
      | inl (ce, b) ↦ elim (result_cases (service.embed (first_text fresh))) [
        | inr (x, c) ↦ ap (λ t. t.1) (sym (rw (a, b, c) at h))
        | inl (fe, c) ↦ elim (result_cases (cosine_similarity np ce.vector fe.vector)) [
          | inr (x, d) ↦ ap (λ t. t.1) (sym (rw (a, b, c, d) at h))
          | inl (z, d) ↦ absurd (let g = rw (a, b, c, d) at h in cc)
        ]
      ]
    ]
  ]

  -- Not validated yet, or shown.
  abbrev pub UpToDate : CacheValidator F × CacheMetrics F → Type 0
  UpToDate t = (t.0.validations ≡ 0) ⊎ IsShown t.0 t.1

  recorded-UpToDate :
      (request : ChatCompletionRequest F) (cached : ChatCompletionResponse F) (v : CacheValidator F)
      (m : CacheMetrics F)
      → UpToDate (v, m)
      → UpToDate (validate_recorded request cached (v, m)).1
  unfolding validate_recorded settle
  recorded-UpToDate request cached v m h =
      elim (outcome_cases (validate np service complete request cached v)) [
        | inl (r, u, e) ↦
            subst (λ t. UpToDate (settle m t).1) (sym e) (inr (record_stats-IsShown u m))
        | inr (x, u, e) ↦
            subst (λ t. UpToDate (settle m t).1) (sym e)
              (subst (λ w. UpToDate (w, m)) (sym (raising_left request cached v u x e)) h)
      ]

  -- After any validations, failed ones among them, the gauges of the metrics show the rates that
  -- the validator reports, or no validation has come to a result.
  pub replayed-UpToDate :
      (more : List (ChatCompletionRequest F × ChatCompletionResponse F))
      (sample_rate drift_threshold : F) (m : CacheMetrics F)
      → UpToDate (replayed more (init sample_rate drift_threshold, m))
  replayed-UpToDate more sample_rate drift_threshold m =
      kept more (init sample_rate drift_threshold) m (inl refl)
    where
      kept :
          (more : List (ChatCompletionRequest F × ChatCompletionResponse F)) (v : CacheValidator F)
          (m : CacheMetrics F)
          → UpToDate (v, m)
          → UpToDate (replayed more (v, m))
      kept [] v m h = h
      kept ((request, cached) ∷ more) v m h =
          kept more (validate_recorded request cached (v, m)).1.0
            (validate_recorded request cached (v, m)).1.1 (recorded-UpToDate request cached v m h)
