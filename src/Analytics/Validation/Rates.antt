-- ===== src/Analytics/Validation/Rates.antt =====
-- The counters of the validations of a run.
use llm_semantic_caching_lay.Prelude.{
  ℕ, ◌+◌, ◌≤◌, ◌≡◌, inl, inr, Bool-cases, result_cases, List, [], ◌∷◌, Result, ok, raise, arith,
  if◌then◌else◌,
}
use llm_semantic_caching_lay.Float.{Float}
use llm_semantic_caching_lay.Models.Chat.{ChatCompletionRequest, ChatCompletionResponse, first_text}
use llm_semantic_caching_lay.Embeddings.{EmbeddingService}
use llm_semantic_caching_lay.Cache.Numpy.{Numpy}
use llm_semantic_caching_lay.Cache.Similarity.{cosine_similarity}
use llm_semantic_caching_lay.Analytics.Validation.{
  ValidationResult, CacheValidator, init, validate, count_validation,
}

module _ {F : Type 0} ⦃f : Float F⦄ (np : Numpy F) (service : EmbeddingService F)
    (complete : ChatCompletionRequest F → Result (ChatCompletionResponse F)) where
  -- The validations of a run, one after the other; a failed one is passed over, as the proxy does.
  abbrev pub run :
      List (ChatCompletionRequest F × ChatCompletionResponse F)
      → CacheValidator F
      → CacheValidator F
  run [] v = v
  run ((request, cached) ∷ more) v = run more (validate np service complete request cached v).1

  -- How many of the validations come to a result, and how many of those show a drift.
  abbrev pub finished : Result (ValidationResult F) → ℕ
  finished (ok r) = 1
  finished (raise e) = 0

  abbrev pub drifted : Result (ValidationResult F) → ℕ
  drifted (ok r) = if r.drift then 1 else 0
  drifted (raise e) = 0

  abbrev pub outcomes :
      List (ChatCompletionRequest F × ChatCompletionResponse F)
      → CacheValidator F
      → List (Result (ValidationResult F))
  outcomes [] v = []
  outcomes ((request, cached) ∷ more) v =
      (validate np service complete request cached v).0
      ∷ outcomes more (validate np service complete request cached v).1

  abbrev pub sum : (Result (ValidationResult F) → ℕ) → List (Result (ValidationResult F)) → ℕ
  sum g [] = 0
  sum g (r ∷ rs) = g r + sum g rs

  validate_lem :
      (request : ChatCompletionRequest F) (cached : ChatCompletionResponse F) (v : CacheValidator F)
      → ((validate np service complete request cached v).1.validations
          ≡ v.validations + finished (validate np service complete request cached v).0)
        × ((validate np service complete request cached v).1.drift
            ≡ v.drift + drifted (validate np service complete request cached v).0)
        × ((validate np service complete request cached v).1.false_hits
            ≡ v.false_hits + drifted (validate np service complete request cached v).0)
  unfolding validate count_validation
  validate_lem request cached v = elim (result_cases (complete request)) [
    | inr (e, x) ↦ rw (validate, x) (omega arith, omega arith, omega arith)
    | inl (fresh, x) ↦ elim (result_cases (service.embed (first_text cached))) [
      | inr (e, y) ↦ rw (validate, x, y) (omega arith, omega arith, omega arith)
      | inl (a, y) ↦ elim (result_cases (service.embed (first_text fresh))) [
        | inr (e, z) ↦ rw (validate, x, y, z) (omega arith, omega arith, omega arith)
        | inl (b, z) ↦ elim (result_cases (cosine_similarity np a.vector b.vector)) [
          | inr (e, w) ↦ rw (validate, x, y, z, w) (omega arith, omega arith, omega arith)
          | inl (similarity, w) ↦
              rw (validate, x, y, z, w)
                (elim (Bool-cases (f.lt similarity v.drift_threshold)) [
                  | inl low ↦ rw (count_validation, low) (omega arith, omega arith, omega arith)
                  | inr high ↦ rw (count_validation, high) (omega arith, omega arith, omega arith)
                ])
        ]
      ]
    ]
  ]

  run_lem :
      (more : List (ChatCompletionRequest F × ChatCompletionResponse F)) (v : CacheValidator F)
      → ((run more v).validations ≡ v.validations + sum finished (outcomes more v))
        × ((run more v).drift ≡ v.drift + sum drifted (outcomes more v))
        × ((run more v).false_hits ≡ v.false_hits + sum drifted (outcomes more v))
  run_lem [] v = (omega arith, omega arith, omega arith)
  run_lem ((request, cached) ∷ more) v =
      let (a, b, c) = validate_lem request cached v in
      let (d, e, g) = run_lem more (validate np service complete request cached v).1 in
      (omega (arith, a, d), omega (arith, b, e), omega (arith, c, g))

  drifted_le : (rs : List (Result (ValidationResult F))) → sum drifted rs ≤ sum finished rs
  drifted_le [] = omega arith
  drifted_le (ok r ∷ rs) = elim (Bool-cases r.drift) [
    | inl low ↦ rw low (omega (arith, drifted_le rs))
    | inr high ↦ rw high (omega (arith, drifted_le rs))
  ]
  drifted_le (raise e ∷ rs) = omega (arith, drifted_le rs)

  -- After a run of validations from a new validator, of which some may raise, the validations
  -- counted are those that came to a result, the drifts and the false hits counted are both those
  -- of these results that show a drift, and they are no more than the validations.
  pub run-counts :
      (sample_rate drift_threshold : F)
      (more : List (ChatCompletionRequest F × ChatCompletionResponse F))
      → ((run more (init sample_rate drift_threshold)).validations
          ≡ sum finished (outcomes more (init sample_rate drift_threshold)))
        × ((run more (init sample_rate drift_threshold)).drift
            ≡ sum drifted (outcomes more (init sample_rate drift_threshold)))
        × ((run more (init sample_rate drift_threshold)).false_hits
            ≡ sum drifted (outcomes more (init sample_rate drift_threshold)))
        × ((run more (init sample_rate drift_threshold)).drift
            ≤ (run more (init sample_rate drift_threshold)).validations)
  run-counts sample_rate drift_threshold more =
      let (a, b, c) = run_lem more (init sample_rate drift_threshold) in
      (
        omega (arith, a),
        omega (arith, b),
        omega (arith, c),
        omega (arith, a, b, drifted_le (outcomes more (init sample_rate drift_threshold))),
      )
