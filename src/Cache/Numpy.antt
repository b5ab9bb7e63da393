-- ===== src/Cache/Numpy.antt =====
-- The operations of NumPy that app/cache calls, and what it relies on: the documented behaviour of
-- `argpartition` and `argsort`. Arrays are lists, of `float32` values.
pub mod Indexing
use mathlib.Core.List.{Mem, Perm, Pairwise}
use llm_semantic_caching_lay.Prelude.{
  ℕ, ◌+◌, ◌<◌, ◌≡◌, Bool, true, ◌&&◌, ◌==◌, List, [], ◌∷◌, map, length, get_elem?, get_or, take,
  drop, range, if◌then◌else◌, codes, Result, ok, raise, and_then, or_raise, index_error, failure,
}
use llm_semantic_caching_lay.Float.{Float}

pub record Numpy (F : Type 0) : Type 0 where
  -- rounding to `float32`
  pub float32 : F → F
  -- `np.linalg.norm` and `np.dot`, of arrays that fit
  pub norm : List F → F
  pub dot : List F → List F → F
  -- `*` and `/` on arrays, element by element
  pub times : F → F → F
  pub over : F → F → F
  -- `np.argpartition(scores, kth)` and `np.argsort(scores)`
  pub argpartition : List F → ℕ → List ℕ
  pub argsort : List F → List ℕ

module _ {F : Type 0} ⦃f : Float F⦄ where
  abbrev pub zero_float : F
  zero_float = f.ratio 0 1

  abbrev pub one_float : F
  one_float = f.ratio 1 1

  abbrev pub score_at : List F → ℕ → F
  score_at scores i = get_or scores i zero_float

pub record IsNumpy {F : Type 0} ⦃f : Float F⦄ (np : Numpy F) : Type 0 where
  -- Both return each index once.
  pub argpartition_perm :
      (xs : List F) (kth : ℕ) → kth < length xs → Perm (np.argpartition xs kth) (range (length xs))
  pub argsort_perm : (xs : List F) → Perm (np.argsort xs) (range (length xs))
  -- Nothing in front of the `kth` place is greater than anything from there on.
  pub argpartition_split :
      (xs : List F) (kth i j : ℕ)
      → kth < length xs
      → Mem i (take kth (np.argpartition xs kth))
      → Mem j (drop kth (np.argpartition xs kth))
      → f.le (score_at xs i) (score_at xs j) ≡ true
  -- In ascending order.
  pub argsort_sorted :
      (xs : List F) → Pairwise (λ i j. f.le (score_at xs i) (score_at xs j) ≡ true) (np.argsort xs)

module _ {ℓ} {A : Type ℓ} where
  -- `xs[i]`, for an index that is not negative.
  unfoldable pub index : List A → ℕ → Result A
  index xs i = or_raise (get_elem? xs i) index_error

  -- `xs[indices]`.
  unfoldable pub gather : List A → List ℕ → Result (List A)
  unfolding index
  gather xs [] = ok []
  gather xs (i ∷ is) = and_then (index xs i) (λ x. and_then (gather xs is) (λ rest. ok (x ∷ rest)))

module _ {F : Type 0} where
  -- `a.size`.
  unfoldable pub size : List (List F) → ℕ
  size [] = 0
  size (row ∷ rows) = length row + size rows

  unfoldable pub all_of_width : ℕ → List (List F) → Bool
  all_of_width n [] = true
  all_of_width n (row ∷ rows) = length row == n && all_of_width n rows

  -- `np.asarray(rows)`: rows of different lengths are no matrix.
  unfoldable pub asarray : List (List F) → Result (List (List F))
  unfolding all_of_width
  asarray [] = ok []
  asarray (row ∷ rows) =
      if all_of_width (length row) rows
      then ok (row ∷ rows)
      else raise (failure (codes "ValueError"))

  -- `matrix @ query`, of a matrix whose width is the query's.
  unfoldable pub matmul : Numpy F → List (List F) → List F → Result (List F)
  unfolding all_of_width
  matmul np matrix query =
      if all_of_width (length query) matrix
      then ok (map (λ row. np.dot row query) matrix)
      else raise (failure (codes "ValueError"))
