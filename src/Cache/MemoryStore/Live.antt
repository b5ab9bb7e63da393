-- ===== src/Cache/MemoryStore/Live.antt =====
-- A search returns live entries of the namespace only, whatever the embeddings.
use mathlib.Core.List.{Mem, mem-cons_self, mem-cons_of_mem}
use llm_semantic_caching_lay.Prelude.{
  ℕ, zero, suc, ◌≡◌, refl, inl, inr, Bool-cases, some, false, List, [], ◌∷◌, map, All, All-map,
  subst, ap, sym, Text, text_eq, text_eq_iff, Result, ok, raise, and_then,
}
use llm_semantic_caching_lay.Prelude.Dict.{Dict}
use llm_semantic_caching_lay.Float.{Float}
use llm_semantic_caching_lay.Models.Entry.{CacheEntry, ScoredEntry, is_expired}
use llm_semantic_caching_lay.Cache.Numpy.{Numpy, index, asarray}
use llm_semantic_caching_lay.Cache.Similarity.{cosine_similarity_matrix, top_k_indices}
use llm_semantic_caching_lay.Cache.VectorStore.{Clock}
use llm_semantic_caching_lay.Cache.MemoryStore.{
  InMemoryVectorStore, scored_at, live_of, live_entries, search_live, search,
}

and_then-eq-ok {ℓ κ} :
    {A : Type ℓ} {B : Type κ} (r : Result A) (k : A → Result B) {b : B}
    → and_then r k ≡ ok b
    → (a : A) × (r ≡ ok a) × (k a ≡ ok b)
and_then-eq-ok (ok a) k h = (a, refl, h)
and_then-eq-ok (raise e) k h = cc

index-All {ℓ} :
    {A : Type 0} (P : A → Type ℓ) (xs : List A) (i : ℕ) {x : A} → All P xs → index xs i ≡ ok x → P x
unfolding index
index-All P [] i h e = cc
index-All P (y ∷ ys) zero h e = subst P (cc) h.0
index-All P (y ∷ ys) (suc i) h e = index-All P ys i h.1 e

module _ {F : Type 0} ⦃f : Float F⦄ where
  -- Stored, of the namespace, and not expired at the time of the search.
  pub record IsLive (clock : Clock F) (namespace : Text) (d : Dict (CacheEntry F))
      (e : CacheEntry F) : Type 0 where
    pub stored : Mem e (map (λ p. p.1) d)
    pub same_namespace : e.namespace ≡ namespace
    pub fresh : is_expired e (some clock.now) clock.reread ≡ false

  IsLive-later :
      (clock : Clock F) (namespace : Text) (d : Dict (CacheEntry F)) (k : Text) (e x : CacheEntry F)
      → IsLive clock namespace d x
      → IsLive clock namespace ((k, e) ∷ d) x
  IsLive-later clock namespace d k e x l = record {
    stored = mem-cons_of_mem e l.stored;
    same_namespace = l.same_namespace;
    fresh = l.fresh;
  }

  live_of-IsLive :
      (clock : Clock F) (namespace : Text) (d : Dict (CacheEntry F))
      → All (IsLive clock namespace d) (live_of clock namespace d)
  unfolding live_of
  live_of-IsLive clock namespace [] = tt
  live_of-IsLive clock namespace ((k, e) ∷ d) =
      let rest : All (IsLive clock namespace ((k, e) ∷ d)) (live_of clock namespace d) =
        All-map (IsLive-later clock namespace d k e) (live_of clock namespace d)
          (live_of-IsLive clock namespace d) in
      elim (Bool-cases (text_eq e.namespace namespace)) [
        | inr other ↦ rw other rest
        | inl same ↦ elim (Bool-cases (is_expired e (some clock.now) clock.reread)) [
          | inl old ↦ rw (same, old) rest
          | inr new ↦
              rw (same, new)
                (
                  record {
                    stored = mem-cons_self;
                    same_namespace = (text_eq_iff e.namespace namespace).0 same;
                    fresh = new;
                  },
                  rest,
                )
        ]
      ]

  pub live_of-All :
      (P : CacheEntry F → Type 0) (clock : Clock F) (namespace : Text) (d : Dict (CacheEntry F))
      → All (λ p. P p.1) d
      → All P (live_of clock namespace d)
  unfolding live_of
  live_of-All P clock namespace [] h = tt
  live_of-All P clock namespace ((k, e) ∷ d) h =
      let rest = live_of-All P clock namespace d h.1 in
      elim (Bool-cases (text_eq e.namespace namespace)) [
        | inr other ↦ rw other rest
        | inl same ↦ elim (Bool-cases (is_expired e (some clock.now) clock.reread)) [
          | inl old ↦ rw (same, old) rest
          | inr new ↦ rw (same, new) (h.0, rest)
        ]
      ]

  scored_at-All :
      (P : CacheEntry F → Type 0) (entries : List (CacheEntry F)) (scores : List F) (is : List ℕ)
      {found : List (ScoredEntry F)}
      → All P entries
      → scored_at entries scores is ≡ ok found
      → All (λ r. P r.entry) found
  unfolding scored_at
  scored_at-All P entries scores [] h e = subst (All (λ r. P r.entry)) {x = []} (cc) tt
  scored_at-All P entries scores (i ∷ is) h e =
      let (entry, at, e1) = and_then-eq-ok (index entries i) _ e in
      let (score, at_score, e2) = and_then-eq-ok (index scores i) _ e1 in
      let (rest, rest_at, e3) = and_then-eq-ok (scored_at entries scores is) _ e2 in
      subst (All (λ r. P r.entry)) {x = record { entry = entry; score = score } ∷ rest} (cc)
        (index-All P entries i h at, scored_at-All P entries scores is h rest_at)

  search_live-All :
      (P : CacheEntry F → Type 0) (np : Numpy F) (live : List (CacheEntry F)) (vector : List F)
      (k : ℕ) {found : List (ScoredEntry F)}
      → All P live
      → search_live np live vector k ≡ ok found
      → All (λ r. P r.entry) found
  unfolding search_live
  search_live-All P np [] vector k h e = subst (All (λ r. P r.entry)) {x = []} (cc) tt
  search_live-All P np (x ∷ xs) vector k h e =
      let (matrix, e0, e1) = and_then-eq-ok (asarray _) _ e in
      let (scores, e2, e3) = and_then-eq-ok (cosine_similarity_matrix np _ matrix) _ e1 in
      let (indices, e4, e5) = and_then-eq-ok (top_k_indices np scores k) _ e3 in
      scored_at-All P (x ∷ xs) scores indices h e5

  -- Whatever the lengths of the embeddings, a search that returns leaves the store as it is, and
  -- each entry it returns is stored, of the namespace asked for, and not expired by the clock.
  pub search-IsLive :
      (np : Numpy F) (clock : Clock F) (namespace : Text) (vector : List F) (k : ℕ)
      (s s' : InMemoryVectorStore F) (found : List (ScoredEntry F))
      → search np clock namespace vector k s ≡ (ok found, s')
      → (s' ≡ s) × All (λ r. IsLive clock namespace s.entries r.entry) found
  unfolding search live_entries
  search-IsLive np clock namespace vector k s s' found e = (
    ap (λ r. r.1) (sym e),
    search_live-All (IsLive clock namespace s.entries) np _ vector k
        (live_of-IsLive clock namespace s.entries) (ap (λ r. r.0) e),
  )
