-- ===== src/Analytics/Threshold/Counts.antt =====
-- The counts of a report on thresholds, and the threshold that it recommends.
use mathlib.Core.List.{Mem, mem-cons, mem-cons_self, mem-cons_of_mem}
use mathlib.Core.Logic.Or
use llm_semantic_caching_lay.Prelude.{
  ℕ, suc, ◌+◌, ◌≡◌, ◌⊎◌, refl, ap, subst, inl, inr, Bool, Bool-cases, List, [], ◌∷◌, map, length,
  All, arith, Result, ok, raise, and_then, if◌then◌else◌,
}
use llm_semantic_caching_lay.Prelude.Sort.{sorted}
use llm_semantic_caching_lay.Float.{Float}
use llm_semantic_caching_lay.Embeddings.{EmbeddingService}
use llm_semantic_caching_lay.Cache.Numpy.{Numpy}
use llm_semantic_caching_lay.Cache.Similarity.{cosine_similarity}
use llm_semantic_caching_lay.Analytics.Threshold.{
  ThresholdTestCase, ThresholdMetrics, ThresholdReport, Confusion, tally, similarities, confusion,
  metrics_of, metrics_at, all_metrics, key_lt, best_of, recommend, evaluate,
}

abbrev pub total : Confusion → ℕ
total c = c.tp + c.fp + c.tn + c.fn

-- How many cases are labelled as a match.
abbrev pub matches_in : List ThresholdTestCase → ℕ
matches_in [] = 0
matches_in (x ∷ cases) = (if x.expected_match then 1 else 0) + matches_in cases

tally-total : (e p : Bool) (c : Confusion) → total (tally e p c) ≡ total c + 1
unfolding tally
tally-total e p c = ground arith

tally_matches :
    (e p : Bool) (c : Confusion)
    → (tally e p c).tp + (tally e p c).fn ≡ c.tp + c.fn + (if e then 1 else 0)
unfolding tally
tally_matches e p c = ground arith

and_then_ok :
    {A B : Type 0} (r : Result A) (k : A → Result B) {b : B}
    → and_then r k ≡ ok b
    → (a : A) × (r ≡ ok a) × (k a ≡ ok b)
and_then_ok (ok a) k h = (a, refl, h)
and_then_ok (raise e) k h = cc

module _ {F : Type 0} ⦃f : Float F⦄ where
  confusion_lem :
      (t : F) (cases : List ThresholdTestCase) (sims : List F) (c : Confusion)
      → length sims ≡ length cases
      → (d : Confusion) × (confusion t cases sims c ≡ ok d)
        × (total d ≡ total c + length cases)
        × (d.tp + d.fn ≡ c.tp + c.fn + matches_in cases)
  unfolding confusion
  confusion_lem t [] [] c h = (c, refl, omega arith, omega arith)
  confusion_lem t [] (s ∷ sims) c h = absurd (omega (arith, h))
  confusion_lem t (x ∷ cases) [] c h = absurd (omega (arith, h))
  confusion_lem t (x ∷ cases) (s ∷ sims) c h =
      let (d, e, all, some_matches) =
        confusion_lem t cases sims (tally x.expected_match (f.le t s) c) (omega (arith, h)) in
      (
        d,
        e,
        omega (arith, all, tally-total x.expected_match (f.le t s) c),
        omega (arith, some_matches, tally_matches x.expected_match (f.le t s) c),
      )

  length-similarities :
      (np : Numpy F) (service : EmbeddingService F) (cases : List ThresholdTestCase) (sims : List F)
      → similarities np service cases ≡ ok sims
      → length sims ≡ length cases
  unfolding similarities
  length-similarities np service [] sims h = subst (λ xs. length xs ≡ 0) {x = []} (cc) refl
  length-similarities np service (c ∷ cs) sims h =
      let (a, e1, h1) = and_then_ok (service.embed c.query) _ h in
      let (b, e2, h2) = and_then_ok (service.embed c.candidate) _ h1 in
      let (sim, e3, h3) = and_then_ok (cosine_similarity np a.vector b.vector) _ h2 in
      let (rest, e4, h4) = and_then_ok (similarities np service cs) _ h3 in
      subst (λ xs. length xs ≡ length (c ∷ cs)) {x = sim ∷ rest} (cc)
        (ap suc (length-similarities np service cs rest e4))

  -- The four counts of a threshold are those of all cases, and the positives those of the matches.
  pub record IsCounted (cases : List ThresholdTestCase) (m : ThresholdMetrics F) : Type 0 where
    pub every_case :
        m.true_positives + m.false_positives + m.true_negatives + m.false_negatives ≡ length cases
    pub every_match : m.true_positives + m.false_negatives ≡ matches_in cases

  metrics_at_lem :
      (t : F) (cases : List ThresholdTestCase) (sims : List F)
      → length sims ≡ length cases
      → (m : ThresholdMetrics F) × (metrics_at t cases sims ≡ ok m)
        × IsCounted cases m
        × (m.threshold ≡ t)
  unfolding metrics_at metrics_of
  metrics_at_lem t cases sims h =
      let (c, e, all, some_matches) =
        confusion_lem t cases sims (record { tp = 0; fp = 0; tn = 0; fn = 0 }) h in
      (
        metrics_of t c,
        rw e refl,
        record { every_case = omega (arith, all); every_match = omega (arith, some_matches) },
        refl,
      )

  all_metrics_lem :
      (ts : List F) (cases : List ThresholdTestCase) (sims : List F)
      → length sims ≡ length cases
      → (ms : List (ThresholdMetrics F)) × (all_metrics ts cases sims ≡ ok ms)
        × All (IsCounted cases) ms
        × (map (λ m. m.threshold) ms ≡ ts)
  unfolding all_metrics
  all_metrics_lem [] cases sims h = ([], refl, tt, refl)
  all_metrics_lem (t ∷ ts) cases sims h =
      let (m, e, counted, same) = metrics_at_lem t cases sims h in
      let (ms, es, all, sames) = all_metrics_lem ts cases sims h in
      (m ∷ ms, rw (e, es) refl, (counted, all), cc (same, sames))

  best_of-Mem :
      (m : ThresholdMetrics F) (ms : List (ThresholdMetrics F))
      → Mem (best_of m ms).threshold (m.threshold ∷ map (λ n. n.threshold) ms)
  unfolding best_of
  best_of-Mem m [] = mem-cons_self
  best_of-Mem m (n ∷ ns) = elim (Bool-cases (key_lt m n)) [
    | inl better ↦ rw (best_of, better) (mem-cons_of_mem m.threshold (best_of-Mem n ns))
    | inr no_better ↦
        rw (best_of, no_better)
          (Or.elim (hlevel) (mem-cons.0 (best_of-Mem m ns)) (λ here. mem-cons.1 (Or.inl here))
            (λ later. mem-cons_of_mem m.threshold (mem-cons_of_mem n.threshold later)))
  ]

  recommend_lem :
      (ms : List (ThresholdMetrics F)) → (ms ≡ []) ⊎ Mem (recommend ms) (map (λ n. n.threshold) ms)
  unfolding recommend
  recommend_lem [] = inl refl
  recommend_lem (m ∷ ms) = inr (best_of-Mem m ms)

  -- The report on a sweep.
  pub record IsSweep (thresholds : List F) (cases : List ThresholdTestCase) (r : ThresholdReport F)
      : Type 0 where
    pub sized : r.sample_size ≡ length cases
    pub swept : map (λ m. m.threshold) r.metrics ≡ sorted f.le thresholds
    pub counted : All (IsCounted cases) r.metrics
    pub recommended : (r.metrics ≡ []) ⊎ Mem r.recommended_threshold (sorted f.le thresholds)

  -- Where the prompts of the cases can be embedded and compared, the sweep raises nothing. It has
  -- one line for each threshold, from the least to the greatest, whose four counts are those of
  -- all cases, the true positives and false negatives those labelled as a match; and it recommends
  -- one of the thresholds, unless there are none.
  pub evaluate-IsSweep :
      (np : Numpy F) (service : EmbeddingService F) (thresholds : List F)
      (cases : List ThresholdTestCase) (sims : List F)
      → similarities np service cases ≡ ok sims
      → (r : ThresholdReport F) × (evaluate np service thresholds cases ≡ ok r)
        × IsSweep thresholds cases r
  unfolding evaluate
  evaluate-IsSweep np service thresholds cases sims h =
      let (ms, e, all, same) =
        all_metrics_lem (sorted f.le thresholds) cases sims
          (length-similarities np service cases sims h) in
      (
        record { sample_size = length cases; metrics = ms; recommended_threshold = recommend ms },
        rw (h, e) refl,
        record {
          sized = refl;
          swept = same;
          counted = all;
          recommended = elim (recommend_lem ms) [
            | inl absent ↦ inl absent
            | inr found ↦ inr (subst (Mem (recommend ms)) same found)
          ];
        },
      )
