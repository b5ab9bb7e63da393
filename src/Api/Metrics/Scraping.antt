-- ===== src/Api/Metrics/Scraping.antt =====
-- A scrape of an in-memory store, after any calls.
use mathlib.Core.List.{Mem, mem-cons, mem-cons_self, mem-cons_of_mem, not-mem-nil}
use mathlib.Core.Logic.Or
use llm_semantic_caching_lay.Prelude.{
  ℕ, suc, ◌≡◌, ◌≢◌, ◌↔◌, refl, sym, subst, ap, ◌∙◌, inl, inr, Bool-cases, none, List, [], ◌∷◌, map,
  length, All, Text, text_eq, text_eq_iff, Result, ok, raise, true,
}
use llm_semantic_caching_lay.Prelude.Dict
use llm_semantic_caching_lay.Prelude.Dict.{Dict}
use llm_semantic_caching_lay.Float.{Float}
use llm_semantic_caching_lay.Cache.Numpy.{Numpy}
use llm_semantic_caching_lay.Cache.MemoryStore.{InMemoryVectorStore, in_memory, get, count}
use llm_semantic_caching_lay.Cache.MemoryStore.Histories.{
  Call, history, meaning, history-IsValid, get-history,
}
use llm_semantic_caching_lay.Monitoring.Metrics.{CacheMetrics, set_cache_size}
use llm_semantic_caching_lay.Core.Http.{Reply}
use llm_semantic_caching_lay.Api.Metrics.{settle, refresh, scrape}

-- No text stands twice.
abbrev pub AllDifferent : List Text → Type 0
AllDifferent [] = Unit
AllDifferent (k ∷ ks) = All (λ j. j ≢ k) ks × AllDifferent ks

module _ {V : Type 0} where
  abbrev keys : Dict V → List Text
  keys d = map (λ p. p.0) d

  keys-All : (P : Text → Type 0) (d : Dict V) → All (λ p. P p.0) d → All P (keys d)
  keys-All P [] h = tt
  keys-All P (p ∷ d) h = (h.0, keys-All P d h.1)

  keys-AllDifferent : (d : Dict V) → Dict.Distinct d → AllDifferent (keys d)
  keys-AllDifferent [] h = tt
  keys-AllDifferent ((k, v) ∷ d) h = (keys-All (λ j. j ≢ k) d h.0, keys-AllDifferent d h.1)

  length-keys : (d : Dict V) → length (keys d) ≡ length d
  length-keys [] = refl
  length-keys (p ∷ d) = ap suc (length-keys d)

  mem-keys : (d : Dict V) (k : Text) → Mem k (keys d) → Dict.get d k ≢ none
  unfolding Dict.get
  mem-keys [] k m e = not-mem-nil m
  mem-keys ((j, v) ∷ d) k m e = elim (Bool-cases (text_eq j k)) [
    | inl here ↦ absurd (let g = rw here at e in cc)
    | inr on ↦
        Or.elim (hlevel) (mem-cons.0 m)
          (λ same. let t : text_eq j k ≡ true = (text_eq_iff j k).1 (sym same) in cc)
          (λ later. mem-keys d k later (rw on at e))
  ]

  keys_mem : (d : Dict V) (k : Text) → Dict.get d k ≢ none → Mem k (keys d)
  unfolding Dict.get
  keys_mem [] k h = absurd (h refl)
  keys_mem ((j, v) ∷ d) k h = elim (Bool-cases (text_eq j k)) [
    | inl here ↦ subst (λ x. Mem x (keys ((j, v) ∷ d))) ((text_eq_iff j k).0 here) mem-cons_self
    | inr on ↦ mem-cons_of_mem j (keys_mem d k (λ e. h (rw on e)))
  ]

module _ {F : Type 0} ⦃f : Float F⦄ (np : Numpy F) (render : CacheMetrics F → Text)
    (calls : List (Call F)) (m : CacheMetrics F) where
  -- The metrics with a size of the cache.
  abbrev pub sized : ℕ → CacheMetrics F
  sized n = record m { cache_size = n }

  -- What a scrape shows and leaves.
  pub record Scraped (t : Result (Reply Text) × (CacheMetrics F × InMemoryVectorStore F))
      : Type 0 where
    pub ids : List Text
    pub different : AllDifferent ids
    pub stored : (id : Text) → Mem id ids ↔ (meaning calls id ≢ none)
    pub shown : t ≡ (
      ok (record { status = 200; headers = []; content = render (sized (length ids)) }),
      (sized (length ids), history calls),
    )

  found : (id : Text) → Dict.get (history calls).entries id ≡ meaning calls id
  unfolding get
  found id = ap (λ t. elim t.0 [ ok o ↦ o | raise e ↦ none ]) (get-history calls id)

  -- After any calls on an in-memory store, from the empty one on, a scrape answers with status 200
  -- and the metrics, in which the size of the cache is the number of the ids under which the map of
  -- those calls holds an entry. All else in the metrics and the store stay as they are.
  pub scrape-Scraped : Scraped (scrape render (in_memory np) (m, history calls))
  unfolding scrape refresh settle set_cache_size in_memory count
  scrape-Scraped = record {
    ids = keys (history calls).entries;
    different = keys-AllDifferent (history calls).entries (history-IsValid calls).distinct;
    stored = λ id. (
      λ i e. mem-keys (history calls).entries id i (found id ∙ e),
      λ h. keys_mem (history calls).entries id (λ e. h (sym (found id) ∙ e)),
    );
    shown = rw (length-keys (history calls).entries) refl;
  }
