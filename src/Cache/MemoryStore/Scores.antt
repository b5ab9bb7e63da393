-- ===== src/Cache/MemoryStore/Scores.antt =====
-- The scores that `search` computes: the cosine of each entry with the query.
use llm_semantic_caching_lay.Prelude.{
  ℕ, ◌<◌, ◌≡◌, refl, ap, ◌∙◌, true, false, ◌==◌, List, [], ◌∷◌, map, length, length-map, All, ok,
  arith,
}
use llm_semantic_caching_lay.Float.{Float}
use llm_semantic_caching_lay.Models.Entry.{CacheEntry}
use llm_semantic_caching_lay.Cache.Numpy.{Numpy, all_of_width, asarray, matmul, size}
use llm_semantic_caching_lay.Cache.Similarity.{
  or_one, denominators, quotients, cosine_similarity_matrix,
}

module _ {F : Type 0} ⦃f : Float F⦄ (np : Numpy F) (vector : List F) where
  abbrev pub row : CacheEntry F → List F
  row e = map np.float32 e.embedding

  abbrev pub query : List F
  query = map np.float32 vector

  -- The cosine of an entry with the query; a zero norm counts as 1.
  abbrev pub score_of : CacheEntry F → F
  score_of e =
      np.over (np.dot (row e) query)
        (or_one np (np.times (np.norm (row e)) (or_one np (np.norm query))))

  abbrev pub Fits : List (CacheEntry F) → Type 0
  Fits = All (λ e. length e.embedding ≡ length vector)

  rows_of_width :
      (n : ℕ) (es : List (CacheEntry F))
      → n ≡ length vector
      → Fits es
      → all_of_width n (map row es) ≡ true
  unfolding all_of_width
  rows_of_width n [] h fits = refl
  rows_of_width n (e ∷ es) h fits =
      ground (arith, rows_of_width n es h fits.1, length-map np.float32 e.embedding)

  pub asarray_lem : (es : List (CacheEntry F)) → Fits es → asarray (map row es) ≡ ok (map row es)
  unfolding asarray
  asarray_lem [] fits = refl
  asarray_lem (e ∷ es) fits =
      rw (rows_of_width (length (row e)) es (length-map np.float32 e.embedding ∙ fits.0) fits.1)

  quotients_lem :
      (es : List (CacheEntry F))
      → quotients np (map (λ r. np.dot r query) (map row es)) (denominators np query (map row es))
        ≡ map score_of es
  unfolding quotients denominators
  quotients_lem [] = refl
  quotients_lem (e ∷ es) = ap (◌∷◌ (score_of e)) (quotients_lem es)

  matmul_lem :
      (es : List (CacheEntry F))
      → Fits es
      → matmul np (map row es) query ≡ ok (map (λ r. np.dot r query) (map row es))
  unfolding matmul
  matmul_lem es fits = rw (rows_of_width (length query) es (length-map np.float32 vector) fits)

  size_pos :
      (e : CacheEntry F) (rows : List (List F))
      → 0 < length e.embedding
      → (size (row e ∷ rows) == 0) ≡ false
  unfolding size
  size_pos e rows pos = ground (arith, length-map np.float32 e.embedding)

  pub scores_lem :
      (e : CacheEntry F) (es : List (CacheEntry F))
      → 0 < length vector
      → Fits (e ∷ es)
      → cosine_similarity_matrix np query (map row (e ∷ es)) ≡ ok (map score_of (e ∷ es))
  unfolding cosine_similarity_matrix
  scores_lem e es pos fits =
      rw (size_pos e (map row es) (omega arith), matmul_lem (e ∷ es) fits, quotients_lem (e ∷ es))
