-- ===== src/Cache/Similarity.antt =====
-- app/cache/similarity.py
pub mod TopK
use llm_semantic_caching_lay.Prelude.{
  ℕ, zero, ◌-◌, ◌≡◌, Bool, ◌==◌, List, [], ◌∷◌, map, reverse, length, take, drop, min,
  if◌then◌else◌, codes, Result, ok, raise, and_then, failure,
}
use llm_semantic_caching_lay.Float.{Float}
use llm_semantic_caching_lay.Cache.Numpy.{Numpy, zero_float, one_float, gather, size, matmul}

module _ {F : Type 0} ⦃f : Float F⦄ (np : Numpy F) where
  unfoldable pub cosine_similarity : List F → List F → Result F
  cosine_similarity a b =
      let va = map np.float32 a in
      let vb = map np.float32 b in
      let denom = np.times (np.norm va) (np.norm vb) in
      if f.eq denom zero_float
      then ok zero_float
      else if length va == length vb
      then ok (np.over (np.dot va vb) denom)
      else raise (failure (codes "ValueError"))

  -- `x or 1.0`, and the assignment of 1.0 under the mask `denom == 0.0`.
  unfoldable pub or_one : F → F
  or_one x = if f.eq x zero_float then one_float else x

  unfoldable pub denominators : List F → List (List F) → List F
  unfolding or_one
  denominators query matrix =
      map (λ row. or_one (np.times (np.norm row) (or_one (np.norm query)))) matrix

  -- Element by element.
  unfoldable pub quotients : List F → List F → List F
  quotients [] ds = []
  quotients (x ∷ xs) [] = []
  quotients (x ∷ xs) (d ∷ ds) = np.over x d ∷ quotients xs ds

  unfoldable pub cosine_similarity_matrix : List F → List (List F) → Result (List F)
  cosine_similarity_matrix query matrix =
      if size matrix == 0
      then ok []
      else and_then (matmul np matrix query)
          (λ dots. ok (quotients dots (denominators query matrix)))

  -- `kth` counts from the end; `[-k:]` is the whole array at k = 0.
  unfoldable pub top_k_indices : List F → ℕ → Result (List ℕ)
  top_k_indices scores k =
      let n = length scores in
      let k' = min k n in
      let kth = if k' == 0 then 0 else n - k' in
      let part = drop kth (np.argpartition scores kth) in
      if n == 0
      then ok []
      else and_then (gather scores part) (λ picked. gather part (reverse (np.argsort picked)))
