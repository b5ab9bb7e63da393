-- ===== src/Analytics/Threshold.antt =====
-- app/analytics/threshold.py.
pub mod Counts
use llm_semantic_caching_lay.Prelude.{
  ℕ, ◌+◌, max, Bool, true, false, ◌&&◌, ◌||◌, not, List, [], ◌∷◌, map, length, ◌==◌, Text, codes,
  Result, ok, raise, failure, and_then, if◌then◌else◌,
}
use llm_semantic_caching_lay.Prelude.Int.{pos}
use llm_semantic_caching_lay.Prelude.Sort.{sorted}
use llm_semantic_caching_lay.Float.{Float}
use llm_semantic_caching_lay.Embeddings.{EmbeddingService}
use llm_semantic_caching_lay.Cache.Numpy.{Numpy}
use llm_semantic_caching_lay.Cache.Similarity.{cosine_similarity}

-- A labelled pair of prompts.
pub record ThresholdTestCase : Type 0 where
  pub query : Text
  pub candidate : Text
  pub expected_match : Bool

pub record ThresholdMetrics (F : Type 0) : Type 0 where
  pub threshold : F
  pub hit_rate : F
  pub precision : F
  pub recall : F
  pub false_positive_rate : F
  pub false_negative_rate : F
  pub true_positives : ℕ
  pub false_positives : ℕ
  pub true_negatives : ℕ
  pub false_negatives : ℕ

pub record ThresholdReport (F : Type 0) : Type 0 where
  pub sample_size : ℕ
  pub metrics : List (ThresholdMetrics F)
  pub recommended_threshold : F

pub record Confusion : Type 0 where
  pub tp : ℕ
  pub fp : ℕ
  pub tn : ℕ
  pub fn : ℕ

unfoldable pub tally : Bool → Bool → Confusion → Confusion
tally expected predicted c =
    if expected && predicted
    then record c { tp = c.tp + 1 }
    else if expected && not predicted
    then record c { fn = c.fn + 1 }
    else if not expected && predicted
    then record c { fp = c.fp + 1 }
    else record c { tn = c.tn + 1 }

module _ {F : Type 0} ⦃f : Float F⦄ where
  unfoldable pub similarities :
      Numpy F → EmbeddingService F → List ThresholdTestCase → Result (List F)
  similarities np service [] = ok []
  similarities np service (c ∷ cs) = and_then (service.embed c.query) (λ a.
      and_then (service.embed c.candidate) (λ b.
        and_then (cosine_similarity np a.vector b.vector)
          (λ sim. and_then (similarities np service cs) (λ sims. ok (sim ∷ sims)))))

  -- The loop over `zip(cases, sims, strict=True)`.
  unfoldable pub confusion : F → List ThresholdTestCase → List F → Confusion → Result Confusion
  unfolding tally
  confusion threshold [] [] c = ok c
  confusion threshold [] (s ∷ sims) c = raise (failure (codes "ValueError"))
  confusion threshold (x ∷ cases) [] c = raise (failure (codes "ValueError"))
  confusion threshold (x ∷ cases) (s ∷ sims) c =
      confusion threshold cases sims (tally x.expected_match (f.le threshold s) c)

  abbrev pub of_ℕ : ℕ → F
  of_ℕ n = f.of_int (pos n)

  unfoldable pub safe_div : ℕ → ℕ → F
  safe_div numerator denominator =
      if denominator == 0 then f.ratio 0 1 else f.div (of_ℕ numerator) (of_ℕ denominator)

  unfoldable pub metrics_of : F → Confusion → ThresholdMetrics F
  unfolding safe_div
  metrics_of threshold c = record {
    threshold = threshold;
    hit_rate = f.div (of_ℕ (c.tp + c.fp)) (of_ℕ (max 1 (c.tp + c.fp + c.tn + c.fn)));
    precision = safe_div c.tp (c.tp + c.fp);
    recall = safe_div c.tp (c.tp + c.fn);
    false_positive_rate = safe_div c.fp (c.fp + c.tn);
    false_negative_rate = safe_div c.fn (c.fn + c.tp);
    true_positives = c.tp;
    false_positives = c.fp;
    true_negatives = c.tn;
    false_negatives = c.fn;
  }

  unfoldable pub metrics_at : F → List ThresholdTestCase → List F → Result (ThresholdMetrics F)
  metrics_at threshold cases sims =
      and_then (confusion threshold cases sims (record { tp = 0; fp = 0; tn = 0; fn = 0 }))
        (λ c. ok (metrics_of threshold c))

  unfoldable pub all_metrics :
      List F → List ThresholdTestCase → List F → Result (List (ThresholdMetrics F))
  all_metrics [] cases sims = ok []
  all_metrics (t ∷ ts) cases sims =
      and_then (metrics_at t cases sims)
        (λ m. and_then (all_metrics ts cases sims) (λ ms. ok (m ∷ ms)))

  unfoldable pub f1 : ThresholdMetrics F → F
  f1 m =
      if f.eq (f.add m.precision m.recall) (f.ratio 0 1)
      then f.ratio 0 1
      else f.div (f.mul (f.mul (f.ratio 2 1) m.precision) m.recall) (f.add m.precision m.recall)

  -- `key(a) < key(b)`, of the tuples (rounded F1, precision, threshold).
  unfoldable pub key_lt : ThresholdMetrics F → ThresholdMetrics F → Bool
  unfolding f1
  key_lt a b =
      let x = f.round (f1 a) 4 in
      let y = f.round (f1 b) 4 in
      if not (f.eq x y)
      then f.lt x y
      else if not (f.eq a.precision b.precision)
      then f.lt a.precision b.precision
      else f.lt a.threshold b.threshold

  -- `max(metrics, key=...)` keeps the first of those with the greatest key.
  unfoldable pub best_of : ThresholdMetrics F → List (ThresholdMetrics F) → ThresholdMetrics F
  unfolding key_lt
  best_of m [] = m
  best_of m (n ∷ ns) = best_of (if key_lt m n then n else m) ns

  unfoldable pub recommend : List (ThresholdMetrics F) → F
  unfolding best_of
  recommend [] = f.ratio 95 100
  recommend (m ∷ ms) = (best_of m ms).threshold

  unfoldable pub evaluate :
      Numpy F → EmbeddingService F → List F → List ThresholdTestCase → Result (ThresholdReport F)
  evaluate np service thresholds cases = and_then (similarities np service cases) (λ sims.
      and_then (all_metrics (sorted f.le thresholds) cases sims) (λ metrics. ok (record {
        sample_size = length cases;
        metrics = metrics;
        recommended_threshold = recommend metrics;
      })))
