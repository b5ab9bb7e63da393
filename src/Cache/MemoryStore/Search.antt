-- ===== src/Cache/MemoryStore/Search.antt =====
-- What `search` returns: the nearest of the live entries of the namespace.
use mathlib.Core.Logic.{∥∥₁_elim}
use mathlib.Core.List.{
  Mem, Perm, Pairwise, Pairwise-map, mem-map, not-mem-nil, map-append, mem-cons_self,
  mem-cons_of_mem, mem-append_left, mem-append_right,
}
use mathlib.Core.List.Perm
use llm_semantic_caching_lay.Prelude.{
  ℕ, ◌<◌, ◌≡◌, refl, ap, subst, true, List, [], ◌∷◌, ◌++◌, map, length, length-map, get_or,
  get_or-map, range, min, All, Text, ok, arith,
}
use llm_semantic_caching_lay.Prelude.Sort.{map-get_or-range, mem-range}
use llm_semantic_caching_lay.Float.{Float}
use llm_semantic_caching_lay.Models.Entry.{CacheEntry, ScoredEntry}
use llm_semantic_caching_lay.Cache.Numpy.{Numpy, IsNumpy, score_at, zero_float}
use llm_semantic_caching_lay.Cache.Similarity.TopK.{IsTopK, top_k_indices-IsTopK}
use llm_semantic_caching_lay.Cache.Numpy.Indexing.{index_in_range}
use llm_semantic_caching_lay.Cache.VectorStore.{Clock}
use llm_semantic_caching_lay.Cache.MemoryStore.{
  InMemoryVectorStore, live_entries, scored_at, search_live, search,
}
use llm_semantic_caching_lay.Cache.MemoryStore.Scores.{score_of, Fits, asarray_lem, scores_lem}

module _ {F : Type 0} ⦃f : Float F⦄ (np : Numpy F) (vector : List F) where
  -- `found` is a best choice of at most `k` of the entries `live`, best first: the entries not
  -- chosen are `others`, and none of them scores higher than one that was chosen.
  pub record IsNearest (k : ℕ) (live : List (CacheEntry F)) (found : List (ScoredEntry F))
      : Type 0 where
    pub others : List (CacheEntry F)
    pub covers : Perm (map (λ r. r.entry) found ++ others) live
    pub count : length found ≡ min k (length live)
    pub scored : All (λ r. r.score ≡ (score_of np vector) r.entry) found
    pub descending : Pairwise (λ r q. f.le q.score r.score ≡ true) found
    pub best :
        (r : ScoredEntry F) (e : CacheEntry F)
        → Mem r found
        → Mem e others
        → f.le ((score_of np vector) e) r.score ≡ true

  -- The result at the indices of the best scores.
  module _ (e : CacheEntry F) (es : List (CacheEntry F)) where
    abbrev live : List (CacheEntry F)
    live = e ∷ es

    abbrev hit_at : ℕ → ScoredEntry F
    hit_at i = record {
      entry = get_or live i e;
      score = score_at (map (score_of np vector) live) i;
    }

    scored_at_lem :
        (is : List ℕ)
        → ((i : ℕ) → Mem i is → i < length live)
        → scored_at live (map (score_of np vector) live) is ≡ ok (map hit_at is)
    unfolding scored_at
    scored_at_lem [] h = refl
    scored_at_lem (i ∷ is) h = rw (
      index_in_range live e i (h i mem-cons_self),
      index_in_range (map (score_of np vector) live) zero_float i
          (rw (length-map (score_of np vector) live) (h i mem-cons_self)),
      scored_at_lem is (λ j m. h j (mem-cons_of_mem i m)),
    )

    abbrev entry_at : ℕ → CacheEntry F
    entry_at i = get_or live i e

    entries_of_hits : (is : List ℕ) → map (λ r. r.entry) (map hit_at is) ≡ map entry_at is
    entries_of_hits [] = refl
    entries_of_hits (i ∷ is) = ap (◌∷◌ (entry_at i)) (entries_of_hits is)

    scored_hits :
        (is : List ℕ)
        → ((i : ℕ) → Mem i is → i < length live)
        → All (λ r. r.score ≡ (score_of np vector) r.entry) (map hit_at is)
    scored_hits [] h = tt
    scored_hits (i ∷ is) h = (
      get_or-map (score_of np vector) live i e zero_float (h i mem-cons_self),
      scored_hits is (λ j m. h j (mem-cons_of_mem i m)),
    )

    module _ (k : ℕ) (is : List ℕ) (t : IsTopK (map (score_of np vector) live) k is) where
      bound : (i : ℕ) → Mem i (is ++ t.others) → i < length live
      bound i m =
          rw (← length-map (score_of np vector) live) (mem-range _ ((Perm.mem_iff t.covers).0 m))

      hits_best :
          (r : ScoredEntry F) (x : CacheEntry F)
          → Mem r (map hit_at is)
          → Mem x (map entry_at t.others)
          → f.le ((score_of np vector) x) r.score ≡ true
      hits_best r x mr mx = ∥∥₁_elim (mem-map.0 mr) (hlevel) (λ (i, mi, er).
          ∥∥₁_elim (mem-map.0 mx) (hlevel) (λ (j, mj, ex).
            rw (← er, ← ex)
              (subst (λ v. f.le v (score_at (map (score_of np vector) live) i) ≡ true)
                (get_or-map (score_of np vector) live j e zero_float
                  (bound j (mem-append_right is mj)))
                (t.best i j mi mj))))

      hits-IsNearest : IsNearest k live (map hit_at is)
      hits-IsNearest = record {
        others = map entry_at t.others;
        covers =
            rw (entries_of_hits is, ← map-append entry_at is t.others)
              (subst (λ l. Perm (map entry_at (is ++ t.others)) l) (map-get_or-range e live)
                (subst (λ n. Perm (map entry_at (is ++ t.others)) (map entry_at (range n)))
                  (length-map (score_of np vector) live) (Perm.map entry_at t.covers)));
        count = omega (arith, length-map hit_at is, t.count, length-map (score_of np vector) live);
        scored = scored_hits is (λ i m. bound i (mem-append_left t.others m));
        descending =
            (Pairwise-map {R = λ r q. f.le q.score r.score ≡ true} (λ a b. hlevel) hit_at).1
              t.descending;
        best = hits_best;
      }

  -- A search finds the nearest of a list of entries that fit the query.
  search_live-IsNearest :
      IsNumpy np
      → (live : List (CacheEntry F)) (k : ℕ) → 0 < length vector
      → 0 < k
      → Fits np vector live
      → (found : List (ScoredEntry F)) × (search_live np live vector k ≡ ok found)
        × IsNearest k live found
  unfolding search_live
  search_live-IsNearest h [] k pos kpos fits = (
    [],
    refl,
    record {
      others = [];
      covers = Perm.refl [];
      count = omega arith;
      scored = tt;
      descending = Pairwise.nil;
      best = λ r e mr. absurd (not-mem-nil mr);
    },
  )
  search_live-IsNearest h (e ∷ es) k pos kpos fits =
      let (is, returned, top) =
        top_k_indices-IsTopK np (map (score_of np vector) (e ∷ es)) h k kpos in
      (
        map (hit_at e es) is,
        rw (
          asarray_lem np vector (e ∷ es) fits,
          scores_lem np vector e es pos fits,
          returned,
          scored_at_lem e es is (λ i m. bound e es k is top i (mem-append_left top.others m)),
        ),
        hits-IsNearest e es k is top,
      )

  -- If every live entry of the namespace has an embedding of the query's length, which is not zero,
  -- a search for at least one result raises nothing, leaves the store as it is, and returns the
  -- `k` live entries of the namespace with the best cosine scores (all of them if there are
  -- fewer), each once, with its score, best first.
  pub search-IsNearest :
      IsNumpy np
      → (clock : Clock F) (namespace : Text) (k : ℕ) (s : InMemoryVectorStore F) → 0 < length vector
      → 0 < k
      → All (λ e. length e.embedding ≡ length vector) (live_entries s clock namespace)
      → (found : List (ScoredEntry F)) × (search np clock namespace vector k s ≡ (ok found, s))
        × IsNearest k (live_entries s clock namespace) found
  unfolding search
  search-IsNearest h clock namespace k s pos kpos fits =
      let (found, returned, nearest) =
        search_live-IsNearest h (live_entries s clock namespace) k pos kpos fits in
      (found, ap (λ r. (r, s)) returned, nearest)
