-- ===== src/Cache/SemanticCache/Reuse.antt =====
-- A response that has been stored, looked up again.
use mathlib.Core.List.{Mem, mem-cons_self, mem-cons_of_mem}
use llm_semantic_caching_lay.Prelude.{
  ◌<◌, ◌≡◌, refl, inl, inr, true, false, Bool-cases, Option, some, [], ◌∷◌, length, All, Text,
  text_eq, text_eq_refl, Result, ok,
}
use llm_semantic_caching_lay.Prelude.Dict
use llm_semantic_caching_lay.Prelude.Dict.{Dict}
use llm_semantic_caching_lay.Float.{Float, IsOrdered}
use llm_semantic_caching_lay.Models.Entry.{CacheEntry, is_expired}
use llm_semantic_caching_lay.Embeddings.{EmbeddingService, EmbeddingResult}
use llm_semantic_caching_lay.Cache.Namespace.{RequestSignature, namespace}
use llm_semantic_caching_lay.Cache.Numpy.{Numpy, IsNumpy}
use llm_semantic_caching_lay.Cache.VectorStore.{Clock}
use llm_semantic_caching_lay.Cache.MemoryStore.{
  InMemoryVectorStore, in_memory, live_of, live_entries, upsert,
}
use llm_semantic_caching_lay.Cache.MemoryStore.Scores.{score_of}
use llm_semantic_caching_lay.Cache.SemanticCache.{
  CacheLookup, is_hit, SemanticCache, LookupClock, Fresh, Storing, entry_of, store_response,
}
use llm_semantic_caching_lay.Cache.SemanticCache.Hits.{bound, looked_up, lookup-IsAnswer}

module _ {F : Type 0} ⦃f : Float F⦄ (clock : Clock F) (namespace : Text) where
  -- An entry that is put is live, where its namespace is asked for and it has not expired.
  put_live :
      (d : Dict (CacheEntry F)) (k : Text) (e : CacheEntry F)
      → text_eq e.namespace namespace ≡ true
      → is_expired e (some clock.now) clock.reread ≡ false
      → Mem e (live_of clock namespace (Dict.put d k e))
  unfolding live_of Dict.put
  put_live [] k e same fresh = rw (same, fresh) mem-cons_self
  put_live ((j, x) ∷ d) k e same fresh = elim (Bool-cases (text_eq j k)) [
    | inl here ↦ rw (here, same, fresh) mem-cons_self
    | inr on ↦
        let rest = put_live d k e same fresh in
        elim (Bool-cases (text_eq x.namespace namespace)) [
          | inr other ↦ rw (on, other) rest
          | inl mine ↦ elim (Bool-cases (is_expired x (some clock.now) clock.reread)) [
            | inl old ↦ rw (on, mine, old) rest
            | inr new ↦ rw (on, mine, new) (mem-cons_of_mem x rest)
          ]
        ]
  ]

  tail_live :
      (P : CacheEntry F → Type 0) (d : Dict (CacheEntry F)) (j : Text) (x : CacheEntry F)
      → All P (live_of clock namespace ((j, x) ∷ d))
      → All P (live_of clock namespace d)
  unfolding live_of
  tail_live P d j x h = elim (Bool-cases (text_eq x.namespace namespace)) [
    | inr other ↦ rw other at h
    | inl mine ↦ elim (Bool-cases (is_expired x (some clock.now) clock.reread)) [
      | inl old ↦ rw (mine, old) at h
      | inr new ↦ (rw (mine, new) at h).1
    ]
  ]

  cons_live-All :
      (P : CacheEntry F → Type 0) (d : Dict (CacheEntry F)) (j : Text) (x : CacheEntry F)
      → P x
      → All P (live_of clock namespace d)
      → All P (live_of clock namespace ((j, x) ∷ d))
  unfolding live_of
  cons_live-All P d j x p h = elim (Bool-cases (text_eq x.namespace namespace)) [
    | inr other ↦ rw other h
    | inl mine ↦ elim (Bool-cases (is_expired x (some clock.now) clock.reread)) [
      | inl old ↦ rw (mine, old) h
      | inr new ↦ rw (mine, new) (p, h)
    ]
  ]

  put_live-All :
      (P : CacheEntry F → Type 0) (d : Dict (CacheEntry F)) (k : Text) (e : CacheEntry F)
      → P e
      → All P (live_of clock namespace d)
      → All P (live_of clock namespace (Dict.put d k e))
  unfolding live_of Dict.put
  put_live-All P [] k e p h = cons_live-All P [] k e p tt
  put_live-All P ((j, x) ∷ d) k e p h =
      let rest = put_live-All P d k e p (tail_live P d j x h) in
      elim (Bool-cases (text_eq j k)) [
        | inl here ↦ rw here (cons_live-All P d j e p (tail_live P d j x h))
        | inr on ↦ elim (Bool-cases (text_eq x.namespace namespace)) [
          | inr other ↦ rw (on, other) rest
          | inl mine ↦ elim (Bool-cases (is_expired x (some clock.now) clock.reread)) [
            | inl old ↦ rw (on, mine, old) rest
            | inr new ↦ rw (on, mine, new) ((rw (mine, new) at h).0, rest)
          ]
        ]
      ]

module _ {F : Type 0} ⦃f : Float F⦄ (np : Numpy F) (h : IsNumpy np) (o : IsOrdered f)
    (embeddings : EmbeddingService F) (hexdigest : Text → Text) (cache : SemanticCache F)
    (signature : RequestSignature F) (embedding : EmbeddingResult F) (fresh : Fresh F)
    (call : Storing F) (s : InMemoryVectorStore F) where
  -- The entry that is stored, and the store that holds it.
  abbrev pub kept : CacheEntry F
  kept = entry_of (in_memory np) embeddings hexdigest cache fresh signature call embedding.vector

  abbrev pub stored : Result (CacheEntry F) × InMemoryVectorStore F
  stored = store_response (in_memory np) embeddings hexdigest cache fresh signature call s

  stored_lem : embeddings.embed call.prompt ≡ ok embedding → stored ≡ (ok kept, (upsert kept s).1)
  unfolding store_response in_memory upsert
  stored_lem embedded = rw embedded refl

  -- Storing a response whose prompt can be embedded succeeds. A lookup of the same prompt under the
  -- same signature, for at least one candidate, made in the store that is left and before the entry
  -- expires, is then a hit, whatever the store held, if the entry scores at least the threshold
  -- against its own embedding. The embedding is not empty, and the live entries of the namespace
  -- have embeddings of the same length.
  pub lookup-store_response :
      (clock : LookupClock F) (threshold : Option F)
      (embedded : embeddings.embed call.prompt ≡ ok embedding)
      → 0 < length embedding.vector
      → 0 < cache.top_k
      → All
          (λ e. length e.embedding ≡ length embedding.vector)
          (live_entries s clock.searched (namespace hexdigest signature))
      → is_expired kept (some clock.searched.now) clock.searched.reread ≡ false
      → f.le
          (bound np embeddings hexdigest cache clock signature call.prompt threshold s)
          (score_of np embedding.vector kept)
        ≡ true
      → (stored.0 ≡ ok kept)
        × ((l : CacheLookup F) × (s' : InMemoryVectorStore F) × (looked_up np embeddings hexdigest
                cache clock signature call.prompt threshold stored.1
              ≡ (ok l, s'))
            × (is_hit l ≡ true))
  unfolding live_entries upsert entry_of
  lookup-store_response clock threshold embedded long pos fits fresh_enough close =
      let after : InMemoryVectorStore F = (upsert kept s).1 in
      let (l, s', returned, answer, left) =
        lookup-IsAnswer np embeddings hexdigest cache clock signature call.prompt threshold after h
          o embedding embedded long pos
          (put_live-All clock.searched (namespace hexdigest signature)
            (λ e. length e.embedding ≡ length embedding.vector) s.entries kept.id kept refl fits) in
      rw (stored_lem embedded) (
        refl,
        (
          l,
          s',
          returned,
          answer.reached.1 ∣ (
            kept,
            put_live clock.searched (namespace hexdigest signature) s.entries kept.id kept
                (text_eq_refl (namespace hexdigest signature)) fresh_enough,
            close,
          ) ∣₁,
        ),
      )
