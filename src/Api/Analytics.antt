-- ===== src/Api/Analytics.antt =====
-- app/api/analytics.py: the routes for tuning. Payloads are given as pydantic has read them; `fmean`
-- stands for `statistics.fmean`.
pub mod Feedback
use llm_semantic_caching_lay.Prelude.{
  ℕ, Bool, Option, none, some, List, [], ◌∷◌, Text, codes, truthy, Exec, Result, ok, raise, pure,
  ◌>>=◌, if◌then◌else◌,
}
use llm_semantic_caching_lay.Prelude.Dict.{Dict}
use llm_semantic_caching_lay.Float.{Float}
use llm_semantic_caching_lay.Models.Json.{Json, float, str, obj, empty, field}
use llm_semantic_caching_lay.Embeddings.{EmbeddingService}
use llm_semantic_caching_lay.Cache.Numpy.{Numpy}
use llm_semantic_caching_lay.Analytics.NearMiss.{NearMissTracker, NearMissReport, report}
use llm_semantic_caching_lay.Analytics.Threshold.{ThresholdTestCase, ThresholdReport, evaluate}
use llm_semantic_caching_lay.Analytics.Validation.{CacheValidator, ValidationStats, stats}
use llm_semantic_caching_lay.Policies.Threshold.{
  ThresholdCategory, Policies, category_value, record_feedback, snapshot,
}

-- `ThresholdTestRequest`, whose cases are not empty.
pub record ThresholdTestRequest (F : Type 0) : Type 0 where
  pub first_case : ThresholdTestCase
  pub more_cases : List ThresholdTestCase
  pub thresholds : Option (List F)

pub record ThresholdFeedback : Type 0 where
  pub category : ThresholdCategory
  pub false_hit : Bool

module _ {F : Type 0} ⦃f : Float F⦄ where
  unfoldable pub near_misses : (List F → F) → NearMissTracker F → Result (NearMissReport F)
  unfolding report
  near_misses fmean tracker = report fmean tracker

  -- Without a validator, the numbers of one that has not validated anything.
  unfoldable pub validation_stats : Option (CacheValidator F) → ValidationStats F
  unfolding stats
  validation_stats (some validator) = stats validator
  validation_stats none = record {
    validations = 0;
    drift_count = 0;
    false_hit_count = 0;
    cache_validation_accuracy = f.ratio 1 1;
    semantic_drift_rate = f.ratio 0 1;
    false_hit_rate = f.ratio 0 1;
    sample_rate = f.ratio 0 1;
    drift_threshold = f.ratio 0 1;
  }

  -- `DEFAULT_THRESHOLDS`.
  unfoldable pub default_thresholds : List F
  default_thresholds = f.ratio 90 100 ∷ f.ratio 92 100 ∷ f.ratio 95 100 ∷ f.ratio 98 100 ∷ []

  -- `payload.thresholds` where it is given and not empty.
  unfoldable pub thresholds_of : Option (List F) → List F
  unfolding default_thresholds
  thresholds_of none = default_thresholds
  thresholds_of (some thresholds) = if truthy thresholds then thresholds else default_thresholds

  unfoldable pub threshold_test :
      Numpy F → EmbeddingService F → ThresholdTestRequest F → Result (ThresholdReport F)
  unfolding thresholds_of evaluate
  threshold_test np embeddings payload =
      evaluate np embeddings (thresholds_of payload.thresholds)
        (payload.first_case ∷ payload.more_cases)

  unfoldable pub current_thresholds : Policies F → Dict F
  unfolding snapshot
  current_thresholds engine = snapshot engine

  unfoldable pub threshold_feedback : ThresholdFeedback → Exec (Policies F) (Json F)
  unfolding record_feedback category_value
  threshold_feedback feedback = do
    updated ← record_feedback feedback.category feedback.false_hit
    pure (
        obj (
          field (codes "category") (str (category_value feedback.category))
            (field (codes "threshold") (float updated) empty)))
