-- ===== src/Analytics/Validation.antt =====
-- app/analytics/validation.py. The draw of the random generator is an argument. A metrics
-- sink is in Recording.
pub mod Rates
pub mod Recording
use llm_semantic_caching_lay.Prelude.{
  ℕ, ◌+◌, Bool, ◌&&◌, List, ◌==◌, Option, none, some, Text, Exec, Result, ok, raise, pure, lift,
  ◌>>=◌, ◌>>◌, if◌then◌else◌,
}
use llm_semantic_caching_lay.Prelude.Int.{pos}
use llm_semantic_caching_lay.Float.{Float}
use llm_semantic_caching_lay.Models.Chat.{ChatCompletionRequest, ChatCompletionResponse, first_text}
use llm_semantic_caching_lay.Embeddings.{EmbeddingService}
use llm_semantic_caching_lay.Cache.Numpy.{Numpy}
use llm_semantic_caching_lay.Cache.Similarity.{cosine_similarity}

pub record ValidationResult (F : Type 0) : Type 0 where
  pub response_similarity : F
  pub drift : Bool
  pub false_hit : Bool

pub record ValidationStats (F : Type 0) : Type 0 where
  pub validations : ℕ
  pub drift_count : ℕ
  pub false_hit_count : ℕ
  pub cache_validation_accuracy : F
  pub semantic_drift_rate : F
  pub false_hit_rate : F
  pub sample_rate : F
  pub drift_threshold : F

-- The object's settings and its counters.
pub record CacheValidator (F : Type 0) : Type 0 where
  pub sample_rate : F
  pub drift_threshold : F
  pub validations : ℕ
  pub drift : ℕ
  pub false_hits : ℕ

abbrev pub init : {F : Type 0} → F → F → CacheValidator F
init sample_rate drift_threshold = record {
  sample_rate = sample_rate;
  drift_threshold = drift_threshold;
  validations = 0;
  drift = 0;
  false_hits = 0;
}

module _ {F : Type 0} ⦃f : Float F⦄ where
  unfoldable pub should_validate : F → CacheValidator F → Bool
  should_validate drawn v = f.lt (f.ratio 0 1) v.sample_rate && f.lt drawn v.sample_rate

  -- `count / n if n else 0.0`.
  unfoldable pub rate : ℕ → ℕ → F
  rate count n = if n == 0 then f.ratio 0 1 else f.div (f.of_int (pos count)) (f.of_int (pos n))

  unfoldable pub stats : CacheValidator F → ValidationStats F
  unfolding rate
  stats v = record {
    validations = v.validations;
    drift_count = v.drift;
    false_hit_count = v.false_hits;
    cache_validation_accuracy = f.sub (f.ratio 1 1) (rate v.false_hits v.validations);
    semantic_drift_rate = rate v.drift v.validations;
    false_hit_rate = rate v.false_hits v.validations;
    sample_rate = v.sample_rate;
    drift_threshold = v.drift_threshold;
  }

  -- The counters after one comparison.
  unfoldable pub count_validation : F → CacheValidator F → CacheValidator F
  count_validation similarity v =
      let counted = record v { validations = v.validations + 1 } in
      if f.lt similarity v.drift_threshold
      then record counted { drift = v.drift + 1; false_hits = v.false_hits + 1 }
      else counted

  unfoldable pub validate :
      Numpy F
      → EmbeddingService F
      → (ChatCompletionRequest F → Result (ChatCompletionResponse F))
      → ChatCompletionRequest F
      → ChatCompletionResponse F
      → Exec (CacheValidator F) (ValidationResult F)
  validate np service complete request cached = do
    fresh ← lift (complete request)
    cached_emb ← lift (service.embed (first_text cached))
    fresh_emb ← lift (service.embed (first_text fresh))
    similarity ← lift (cosine_similarity np cached_emb.vector fresh_emb.vector)
    (λ v. (
      ok (record {
        response_similarity = similarity;
        drift = f.lt similarity v.drift_threshold;
        false_hit = f.lt similarity v.drift_threshold;
      }),
      count_validation similarity v,
    ))
