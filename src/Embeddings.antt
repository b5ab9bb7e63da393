-- ===== src/Embeddings.antt =====
-- app/embeddings/base.py: the interface of an embedding service. A call may raise.
pub mod Fake
pub mod OpenAi
use llm_semantic_caching_lay.Prelude.{ℕ, List, map, Text, Result, if◌then◌else◌}
use llm_semantic_caching_lay.Prelude.Int.{ℤ}
use llm_semantic_caching_lay.Float.{Float}
use llm_semantic_caching_lay.Cache.Numpy.{Numpy}

pub record EmbeddingResult (F : Type 0) : Type 0 where
  pub vector : List F
  pub model : Text
  pub dimensions : ℕ
  pub tokens : ℤ

pub record EmbeddingService (F : Type 0) : Type 0 where
  pub embed : Text → Result (EmbeddingResult F)

-- A vector of norm 0 is left as it is.
unfoldable pub normalize : {F : Type 0} ⦃f : Float F⦄ → Numpy F → List F → List F
normalize ⦃f⦄ np vector =
    let norm = np.norm vector in
    if f.eq norm (f.ratio 0 1) then vector else map (λ x. np.over x norm) vector
