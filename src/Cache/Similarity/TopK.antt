-- ===== src/Cache/Similarity/TopK.antt =====
-- `top_k_indices` selects the best scores, best first.
use mathlib.Core.List.{
  Mem, Perm, Pairwise, Pairwise-map, Pairwise-reverse, reverse_perm, not-mem-nil, mem-append_right,
  perm_append_comm,
}
use mathlib.Core.List.Perm
use mathlib.Core.List.Pairwise
use llm_semantic_caching_lay.Prelude.{
  ℕ, ◌-◌, ◌<◌, ◌≡◌, subst, ◌∙◌, true, ◌==◌, inl, inr, Bool-cases, List, [], ◌++◌, map, reverse,
  length, length-drop, length-map, take, drop, take-append-drop, get_or, get_or-map, range, min,
  if◌then◌else◌, ok, and_then, arith,
}
use llm_semantic_caching_lay.Prelude.Sort.{
  length-range, length_of_perm, mem-range, map-get_or-range,
}
use llm_semantic_caching_lay.Float.{Float}
use llm_semantic_caching_lay.Cache.Numpy.Indexing.{gather_in_range}
use llm_semantic_caching_lay.Cache.Numpy.{Numpy, IsNumpy, zero_float, score_at, gather}
use llm_semantic_caching_lay.Cache.Similarity.{top_k_indices}

module _ {F : Type 0} ⦃f : Float F⦄ (scores : List F) where
  -- The `k` best scores, best first, or all where there are fewer: the indices outside `indices`
  -- make up `others`, and none of them has a greater score.
  pub record IsTopK (k : ℕ) (indices : List ℕ) : Type 0 where
    pub others : List ℕ
    pub covers : Perm (indices ++ others) (range (length scores))
    pub count : length indices ≡ min k (length scores)
    pub descending : Pairwise (λ i j. f.le (score_at scores j) (score_at scores i) ≡ true) indices
    pub best :
        (i j : ℕ)
        → Mem i indices
        → Mem j others
        → f.le (score_at scores j) (score_at scores i) ≡ true

module _ {F : Type 0} ⦃f : Float F⦄ (np : Numpy F) (scores : List F) where
  -- The part behind `kth`, sorted.
  module _ (h : IsNumpy np) (kth : ℕ) (small : kth < length scores) where
    abbrev front : List ℕ
    front = take kth (np.argpartition scores kth)

    abbrev part : List ℕ
    part = drop kth (np.argpartition scores kth)

    abbrev picked : List F
    picked = map (score_at scores) part

    abbrev chosen : List ℕ
    chosen = map (λ i. get_or part i 0) (reverse (np.argsort picked))

    length-picked : length picked ≡ length part
    length-picked = length-map (score_at scores) part

    argsort_bound : (i : ℕ) → Mem i (np.argsort picked) → i < length part
    argsort_bound i m =
        rw (← length-picked) (mem-range _ ((Perm.mem_iff (h.argsort_perm picked)).0 m))

    part_bound : (i : ℕ) → Mem i part → i < length scores
    part_bound i m = mem-range (length scores) (
        (Perm.mem_iff (h.argpartition_perm scores kth small)).0
          (rw (← take-append-drop kth (np.argpartition scores kth)) (mem-append_right front m)))

    chosen-perm : Perm chosen part
    chosen-perm =
        subst (λ l. Perm chosen l) (map-get_or-range 0 part)
          (Perm.map (λ i. get_or part i 0)
            (Perm.trans (reverse_perm (np.argsort picked)) (
              subst (λ n. Perm (np.argsort picked) (range n)) length-picked
                (h.argsort_perm picked))))

    chosen-descending : Pairwise (λ i j. f.le (score_at scores j) (score_at scores i) ≡ true) chosen
    chosen-descending =
        (Pairwise-map {R = λ i j. f.le (score_at scores j) (score_at scores i) ≡ true}
            (λ a b. hlevel) (λ i. get_or part i 0)).1
          ((Pairwise-reverse (λ a b. hlevel)).1 (
            Pairwise.imp_of_mem
              (λ a b ma mb r.
                rw
                  (
                    ← get_or-map (score_at scores) part a 0 zero_float (argsort_bound a ma),
                    ← get_or-map (score_at scores) part b 0 zero_float (argsort_bound b mb),
                  )
                  r)
              (h.argsort_sorted picked)))

    length-chosen : length chosen ≡ length scores - kth
    length-chosen = omega (
      arith,
      length_of_perm chosen-perm,
      length-drop kth (np.argpartition scores kth),
      length_of_perm (h.argpartition_perm scores kth small),
      length-range (length scores),
    )

    chosen-IsTopK : (k : ℕ) → length scores - kth ≡ min k (length scores) → IsTopK scores k chosen
    chosen-IsTopK k e = record {
      others = front;
      covers = Perm.trans (Perm.append_right front chosen-perm) (
          Perm.trans (perm_append_comm part front) (
            rw (take-append-drop kth (np.argpartition scores kth))
              (h.argpartition_perm scores kth small)));
      count = length-chosen ∙ e;
      descending = chosen-descending;
      best = λ i j mi mj.
          h.argpartition_split scores kth j i small mj ((Perm.mem_iff chosen-perm).0 mi);
    }

    gathered : and_then (gather scores part) (λ p. gather part (reverse (np.argsort p))) ≡ ok chosen
    gathered = rw (
      gather_in_range scores zero_float part part_bound,
      gather_in_range part 0 (reverse (np.argsort picked))
          (λ i m. argsort_bound i ((Perm.mem_iff (reverse_perm (np.argsort picked))).0 m)),
    )

  -- For at least one result, `top_k_indices` raises nothing and returns the indices of the `k` best
  -- scores, in descending order, each once.
  pub top_k_indices-IsTopK :
      IsNumpy np
      → (k : ℕ) → 0 < k
      → (r : List ℕ) × (top_k_indices np scores k ≡ ok r) × IsTopK scores k r
  unfolding top_k_indices
  top_k_indices-IsTopK h k pos = elim (Bool-cases (length scores == 0)) [
    | inl empty ↦
        let none_left : length scores ≡ 0 = ground arith in
        (
          [],
          rw empty,
          record {
            others = [];
            covers = rw none_left (Perm.refl []);
            count = omega arith;
            descending = Pairwise.nil;
            best = λ i j mi mj. absurd (not-mem-nil mi);
          },
        )
    | inr full ↦
        let small : length scores - min k (length scores) < length scores = ground arith in
        let from_end : (if min k (length scores) == 0
              then 0
              else length scores - min k (length scores))
            ≡ length scores - min k (length scores) =
          ground arith in
        (
          chosen h _ small,
          rw (full, from_end) (gathered h _ small),
          chosen-IsTopK h _ small k (omega arith),
        )
  ]
