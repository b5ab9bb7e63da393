-- ===== src/Tests/Arrays.antt =====
-- A concrete NumPy over whole ten-thousandths, and its laws. The norm is the sum of the absolute
-- values, which is the Euclidean norm of a vector with one component other than zero.
use mathlib.Core.List.{Mem, Pairwise, Pairwise-append}
use llm_semantic_caching_lay.Prelude.{
  ℕ, ◌+◌, ◌≡◌, subst, sym, true, List, [], ◌∷◌, length, take, drop, take-append-drop, range,
}
use llm_semantic_caching_lay.Prelude.Int.{ℤ, pos, pos_part, neg_part, ◌+ℤ◌}
use llm_semantic_caching_lay.Prelude.Sort.{sorted, sorted-perm, sorted-Pairwise}
use llm_semantic_caching_lay.Float.Decimals.{decimals, decimals-IsOrdered}
use llm_semantic_caching_lay.Cache.Numpy.{Numpy, IsNumpy, score_at}

abbrev dot : List ℤ → List ℤ → ℤ
dot [] ys = pos 0
dot (x ∷ xs) [] = pos 0
dot (x ∷ xs) (y ∷ ys) = decimals.mul x y +ℤ dot xs ys

abbrev norm : List ℤ → ℤ
norm [] = pos 0
norm (x ∷ xs) = pos (pos_part x + neg_part x) +ℤ norm xs

abbrev pub argsort : List ℤ → List ℕ
argsort xs = sorted (λ i j. decimals.le (score_at xs i) (score_at xs j)) (range (length xs))

abbrev pub arrays : Numpy ℤ
arrays = record {
  float32 = λ x. x;
  norm = norm;
  dot = dot;
  times = decimals.mul;
  over = decimals.div;
  argpartition = λ xs kth. argsort xs;
  argsort = argsort;
}

ascending :
    (xs : List ℤ)
    → Pairwise (λ i j. decimals.le (score_at xs i) (score_at xs j) ≡ true) (argsort xs)
ascending xs =
    sorted-Pairwise (λ i j. decimals.le (score_at xs i) (score_at xs j))
      (λ i j k. decimals-IsOrdered.le_trans (score_at xs i) (score_at xs j) (score_at xs k))
      (λ i j. decimals-IsOrdered.le_total (score_at xs i) (score_at xs j)) (range (length xs))

split :
    (xs : List ℤ) (kth i j : ℕ)
    → Mem i (take kth (argsort xs))
    → Mem j (drop kth (argsort xs))
    → decimals.le (score_at xs i) (score_at xs j) ≡ true
split xs kth i j mi mj =
    ((Pairwise-append {R = λ a b. decimals.le (score_at xs a) (score_at xs b) ≡ true}
          (λ a b. hlevel) {l₁ = take kth (argsort xs)} {l₂ = drop kth (argsort xs)}).0
        (subst (Pairwise (λ a b. decimals.le (score_at xs a) (score_at xs b) ≡ true))
          (sym (take-append-drop kth (argsort xs))) (ascending xs))).2
      i mi j mj

pub arrays-IsNumpy : IsNumpy arrays
arrays-IsNumpy = record {
  argpartition_perm = λ xs kth h. sorted-perm _ (range (length xs));
  argsort_perm = λ xs. sorted-perm _ (range (length xs));
  argpartition_split = λ xs kth i j h. split xs kth i j;
  argsort_sorted = ascending;
}
