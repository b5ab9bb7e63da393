-- ===== src/Cache/SemanticCache/Best.antt =====
-- A lookup, by the live entry with the best score.
use mathlib.Core.List.{Mem}
use llm_semantic_caching_lay.Prelude.{
  ◌<◌, ◌≡◌, inl, inr, true, false, Bool, Bool-cases, Option, none, some, List, [], ◌∷◌, length, All,
  Text, Result, ok,
}
use llm_semantic_caching_lay.Float.{Float, IsOrdered}
use llm_semantic_caching_lay.Models.Entry.{CacheEntry, ScoredEntry}
use llm_semantic_caching_lay.Embeddings.{EmbeddingService, EmbeddingResult}
use llm_semantic_caching_lay.Cache.Namespace.{RequestSignature, namespace}
use llm_semantic_caching_lay.Cache.Numpy.{Numpy, IsNumpy}
use llm_semantic_caching_lay.Cache.MemoryStore.{
  InMemoryVectorStore, in_memory, increment_hit, search,
}
use llm_semantic_caching_lay.Cache.MemoryStore.Scores.{score_of}
use llm_semantic_caching_lay.Cache.MemoryStore.Search.{IsNearest, search-IsNearest}
use llm_semantic_caching_lay.Cache.SemanticCache.{
  CacheStatus, hit, miss, CacheLookup, SemanticCache, LookupClock,
}
use llm_semantic_caching_lay.Cache.SemanticCache.Steps.{
  reported, lookup_nothing, lookup_reached, lookup_missed,
}
use llm_semantic_caching_lay.Cache.SemanticCache.Hits.{
  first_greatest, first_live, nothing_live, increment_hit_ok, live, bound, looked_up,
}

module _ {F : Type 0} ⦃f : Float F⦄ (np : Numpy F) (vector : List F) where
  -- The entry of `r` is one of the entries, `r` has its score, and no entry has a greater one.
  pub record IsBest (entries : List (CacheEntry F)) (r : ScoredEntry F) : Type 0 where
    pub among : Mem r.entry entries
    pub own_score : r.score ≡ score_of np vector r.entry
    pub greatest : (e : CacheEntry F) → Mem e entries → f.le (score_of np vector e) r.score ≡ true

module _ {F : Type 0} ⦃f : Float F⦄ (np : Numpy F) (embeddings : EmbeddingService F)
    (hexdigest : Text → Text) (cache : SemanticCache F) (clock : LookupClock F)
    (signature : RequestSignature F) (prompt : Text) (threshold : Option F)
    (s : InMemoryVectorStore F) (embedding : EmbeddingResult F) where
  abbrev entries : List (CacheEntry F)
  entries = live np embeddings hexdigest cache clock signature prompt threshold s

  abbrev limit : F
  limit = bound np embeddings hexdigest cache clock signature prompt threshold s

  abbrev looking : Result (CacheLookup F) × InMemoryVectorStore F
  looking = looked_up np embeddings hexdigest cache clock signature prompt threshold s

  abbrev pub report : CacheStatus → Option (ScoredEntry F) → Bool → CacheLookup F
  report = reported (in_memory np) embeddings hexdigest cache clock signature prompt threshold

  -- What a lookup comes to.
  pub data Looked : Type 0 where
    nothing : entries ≡ [] → looking ≡ (ok (report miss none false), s) → Looked
    reached :
        (r : ScoredEntry F)
        → IsBest np embedding.vector entries r
        → f.le limit r.score ≡ true
        → looking ≡ (ok (report hit (some r) false), (increment_hit r.entry.id s).1)
        → Looked
    missed :
        (r : ScoredEntry F) (near : Bool)
        → IsBest np embedding.vector entries r
        → f.le limit r.score ≡ false
        → looking ≡ (ok (report miss (some r) near), s)
        → Looked

  module _ (h : IsNumpy np) (o : IsOrdered f) (embedded : embeddings.embed prompt ≡ ok embedding)
      (some_asked : 0 < cache.top_k) where
    searched-Looked :
        (found : List (ScoredEntry F))
        → search np clock.searched (namespace hexdigest signature) embedding.vector cache.top_k s
          ≡ (ok found, s)
        → IsNearest np embedding.vector cache.top_k entries found
        → Looked
    unfolding in_memory
    searched-Looked [] e n =
        nothing (nothing_live np embedding.vector cache.top_k entries some_asked n) (
          lookup_nothing _ embeddings hexdigest cache clock signature prompt threshold embedding s s
            embedded e)
    searched-Looked (r ∷ rs) e n =
        let best : IsBest np embedding.vector entries r = record {
          among = first_live np embedding.vector cache.top_k entries r rs n;
          own_score = n.scored.0;
          greatest = first_greatest np embedding.vector o cache.top_k entries r rs n;
        } in
        elim (Bool-cases (f.le limit r.score)) [
          | inl within ↦ reached r best within (
              lookup_reached _ embeddings hexdigest cache clock signature prompt threshold embedding
                s s embedded r rs e _ within (increment_hit_ok r.entry.id s))
          | inr beyond ↦ missed r _ best beyond (
              lookup_missed _ embeddings hexdigest cache clock signature prompt threshold embedding
                s s embedded r rs e beyond)
        ]

    pub lookup-Looked :
        0 < length embedding.vector
        → All (λ e. length e.embedding ≡ length embedding.vector) entries
        → Looked
    lookup-Looked long fits =
        let (found, e, n) =
          search-IsNearest np embedding.vector h clock.searched (namespace hexdigest signature)
            cache.top_k s long some_asked fits in
        searched-Looked found e n
