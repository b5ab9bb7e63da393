-- ===== src/Embeddings/Fake.antt =====
-- app/embeddings/fake.py. `Hashing` stands for hashlib and `str.lower`, and `standard_normal` for
-- NumPy's generator: what one that is seeded draws first.
use llm_semantic_caching_lay.Prelude.{
  ℕ, ◌+◌, ◌*◌, ◌/◌, max, ◌≡◌, refl, ◌∙◌, inl, inr, Bool-cases, List, [], ◌∷◌, map, take, length,
  length-map, Text, strip, is_space, Result, ok, and_then,
}
use llm_semantic_caching_lay.Prelude.Int.{pos}
use llm_semantic_caching_lay.Float.{Float}
use llm_semantic_caching_lay.Cache.Numpy.{Numpy}
use llm_semantic_caching_lay.Embeddings.{EmbeddingResult, EmbeddingService, normalize}

-- `str.lower`, and the 32 bytes of `hashlib.sha256(t.encode("utf-8")).digest()`, for texts that
-- UTF-8 encodes.
pub record Hashing : Type 0 where
  pub lower : Text → Text
  pub sha256 : Text → List ℕ

-- `int.from_bytes(bytes, "big")`, behind the bytes whose number is `high`.
unfoldable pub from_bytes : (high : ℕ) → List ℕ → ℕ
from_bytes high [] = high
from_bytes high (b ∷ bs) = from_bytes (256 * high + b) bs

module _ {F : Type 0} ⦃f : Float F⦄ (np : Numpy F) (hashing : Hashing)
    (standard_normal : (seed size : ℕ) → List F) (model : Text) (dimensions : ℕ) where
  unfoldable pub vector_for : Text → List F
  unfolding from_bytes strip is_space normalize
  vector_for text =
      let digest = hashing.sha256 (hashing.lower (strip is_space text)) in
      let seed = from_bytes 0 (take 8 digest) in
      normalize np (map np.float32 (standard_normal seed dimensions))

  unfoldable pub embed : Text → Result (EmbeddingResult F)
  unfolding vector_for
  embed text = ok (record {
    vector = vector_for text;
    model = model;
    dimensions = dimensions;
    tokens = pos (max 1 (length text / 4));
  })

  unfoldable pub embed_batch : List Text → Result (List (EmbeddingResult F))
  unfolding embed
  embed_batch [] = ok []
  embed_batch (text ∷ texts) =
      let rest = embed_batch texts in
      and_then (embed text) (λ result. and_then rest (λ results. ok (result ∷ results)))

  unfoldable pub fake : EmbeddingService F
  unfolding embed
  fake = record { embed = embed }

  length-normalize : (v : List F) → length (normalize np v) ≡ length v
  unfolding normalize
  length-normalize v = elim (Bool-cases (f.eq (np.norm v) (f.ratio 0 1))) [
    | inl zero ↦ rw zero refl
    | inr other ↦ rw other (length-map (λ x. np.over x (np.norm v)) v)
  ]

  -- Where the generator draws as many numbers as it is asked for, a vector has the dimensions.
  pub length-vector_for :
      ((seed size : ℕ) → length (standard_normal seed size) ≡ size)
      → (text : Text) → length (vector_for text) ≡ dimensions
  unfolding vector_for
  length-vector_for drawn text =
      length-normalize _ ∙ length-map np.float32 (standard_normal _ dimensions) ∙ drawn _ dimensions
