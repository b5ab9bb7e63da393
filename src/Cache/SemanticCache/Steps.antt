-- ===== src/Cache/SemanticCache/Steps.antt =====
-- What a lookup does once the prompt is embedded and the store has been searched.
use llm_semantic_caching_lay.Prelude.{
  ◌≡◌, Bool, true, false, Option, none, some, List, [], ◌∷◌, Text, Result, ok, raise, Error,
}
use llm_semantic_caching_lay.Float.{Float}
use llm_semantic_caching_lay.Models.Entry.{ScoredEntry}
use llm_semantic_caching_lay.Embeddings.{EmbeddingService, EmbeddingResult}
use llm_semantic_caching_lay.Cache.Namespace.{RequestSignature, namespace}
use llm_semantic_caching_lay.Cache.VectorStore.{VectorStore}
use llm_semantic_caching_lay.Cache.SemanticCache.{
  CacheStatus, hit, miss, CacheLookup, SemanticCache, LookupClock, effective, in_window, judge,
  best_score, lookup,
}

module _ {F S : Type 0} ⦃f : Float F⦄ (store : VectorStore F S) (embeddings : EmbeddingService F)
    (hexdigest : Text → Text) (cache : SemanticCache F) (clock : LookupClock F)
    (signature : RequestSignature F) (prompt : Text) (threshold : Option F) where
  abbrev bound : F
  bound = effective store embeddings hexdigest cache threshold

  -- The lookup that reports a status over the best match.
  abbrev pub reported : CacheStatus → Option (ScoredEntry F) → Bool → CacheLookup F
  reported status best near_miss = record {
    status = status;
    score = best_score store embeddings hexdigest cache best;
    latency_ms = f.mul (f.sub clock.finished clock.started) (f.ratio 1000 1);
    match = best;
    near_miss = near_miss;
  }

  abbrev run : S → Result (CacheLookup F) × S
  run = lookup store embeddings hexdigest cache clock signature prompt threshold

  pub lookup_embed_fails :
      (e : Error) (s : S) → embeddings.embed prompt ≡ raise e → run s ≡ (raise e, s)
  unfolding lookup
  lookup_embed_fails e s h = rw h

  module _ (embedding : EmbeddingResult F) (s s1 : S)
      (embedded : embeddings.embed prompt ≡ ok embedding) where
    abbrev searching : Result (List (ScoredEntry F)) × S
    searching =
        store.search clock.searched (namespace hexdigest signature) embedding.vector cache.top_k s

    pub lookup_search_fails : (e : Error) → searching ≡ (raise e, s1) → run s ≡ (raise e, s1)
    unfolding lookup
    lookup_search_fails e h = rw (embedded, h)

    pub lookup_nothing : searching ≡ (ok [], s1) → run s ≡ (ok (reported miss none false), s1)
    unfolding lookup judge
    lookup_nothing h = rw (embedded, h)

    module _ (r : ScoredEntry F) (rs : List (ScoredEntry F))
        (found : searching ≡ (ok (r ∷ rs), s1)) where
      pub lookup_reached :
          (s2 : S)
          → f.le bound r.score ≡ true
          → store.increment_hit r.entry.id s1 ≡ (ok tt, s2)
          → run s ≡ (ok (reported hit (some r) false), s2)
      unfolding lookup judge
      lookup_reached s2 reached counted = rw (embedded, found, reached, counted)

      pub lookup_missed :
          f.le bound r.score ≡ false
          → run s ≡ (
            ok (reported miss (some r) (in_window store embeddings hexdigest cache bound r.score)),
            s1,
          )
      unfolding lookup judge
      lookup_missed missed = rw (embedded, found, missed)
