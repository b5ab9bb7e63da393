-- ===== src/Cache/SemanticCache/Hits.antt =====
-- When a lookup over the in-memory store hits, and when it misses nearly.
use mathlib.Core.Logic.{∥∥₁_elim}
use mathlib.Core.Logic.Or
use mathlib.Core.HLevel.{⊥_prop}
use mathlib.Core.List.{
  Mem, Pairwise-cons, mem-map, mem-append, mem-cons, mem-cons_self, not-mem-nil, mem-append_left,
}
use mathlib.Core.List.Perm
use llm_semantic_caching_lay.Prelude.{
  ℕ, ◌<◌, ◌≡◌, ◌↔◌, refl, sym, subst, ◌∙◌, inl, inr, Bool, true, false, Bool-cases, Option, none,
  some, List, [], ◌∷◌, map, length, All, Text, Result, ok, arith,
}
use llm_semantic_caching_lay.Float.{Float, IsOrdered}
use llm_semantic_caching_lay.Models.Entry.{CacheEntry, ScoredEntry}
use llm_semantic_caching_lay.Embeddings.{EmbeddingService, EmbeddingResult}
use llm_semantic_caching_lay.Cache.Namespace.{RequestSignature, namespace}
use llm_semantic_caching_lay.Cache.Numpy.{Numpy, IsNumpy}
use llm_semantic_caching_lay.Cache.MemoryStore.{
  InMemoryVectorStore, in_memory, live_entries, increment_hit, search,
}
use llm_semantic_caching_lay.Cache.MemoryStore.Scores.{score_of}
use llm_semantic_caching_lay.Cache.MemoryStore.Search.{IsNearest, search-IsNearest}
use llm_semantic_caching_lay.Cache.SemanticCache.{
  CacheStatus, hit, miss, CacheLookup, is_hit, SemanticCache, LookupClock, effective, in_window,
  lookup,
}
use llm_semantic_caching_lay.Cache.SemanticCache.Steps.{
  reported, lookup_nothing, lookup_reached, lookup_missed,
}

All-elim :
    {A : Type 0} (P : A → Type 0) {Q : Type 0} (xs : List A) {x : A}
    → IsProp Q
    → All P xs
    → Mem x xs
    → (P x → Q)
    → Q
All-elim P [] prop h m k = absurd (not-mem-nil m)
All-elim P (y ∷ ys) prop h m k =
    Or.elim prop (mem-cons.0 m) (λ e. k (subst P (sym e) h.0)) (λ l. All-elim P ys prop h.1 l k)

module _ {F : Type 0} ⦃f : Float F⦄ (np : Numpy F) (vector : List F) where
  -- The first result has the greatest score of all live entries.
  pub first_greatest :
      IsOrdered f
      → (k : ℕ) (live : List (CacheEntry F)) (r : ScoredEntry F) (rs : List (ScoredEntry F))
      → IsNearest np vector k live (r ∷ rs)
      → (e : CacheEntry F) → Mem e live
      → f.le (score_of np vector e) r.score ≡ true
  first_greatest o k live r rs n e m =
      Or.elim (hlevel)
        ((mem-append {s = map (λ q. q.entry) (r ∷ rs)}).0 ((Perm.mem_iff n.covers).1 m))
        (λ chosen. ∥∥₁_elim ((mem-map {f = λ q. q.entry}).0 chosen) (hlevel) (λ (q, mq, same).
          subst (λ x. f.le (score_of np vector x) r.score ≡ true) same
            (All-elim (λ x. x.score ≡ score_of np vector x.entry) (r ∷ rs) (hlevel) n.scored mq
              (λ scored.
                subst (λ v. f.le v r.score ≡ true) scored
                  (Or.elim (hlevel) (mem-cons.0 mq) (λ here. rw here (o.le_refl r.score))
                    ((Pairwise-cons.0 n.descending).0 q))))))
        (n.best r e mem-cons_self)

  pub first_live :
      (k : ℕ) (live : List (CacheEntry F)) (r : ScoredEntry F) (rs : List (ScoredEntry F))
      → IsNearest np vector k live (r ∷ rs)
      → Mem r.entry live
  first_live k live r rs n = (Perm.mem_iff n.covers).0 (mem-append_left n.others mem-cons_self)

  pub nothing_live :
      (k : ℕ) (live : List (CacheEntry F)) → 0 < k → IsNearest np vector k live [] → live ≡ []
  nothing_live k [] pos n = refl
  nothing_live k (e ∷ es) pos n = absurd (omega (arith, n.count))

pub increment_hit_ok :
    {F : Type 0} (id : Text) (s : InMemoryVectorStore F)
    → increment_hit id s ≡ (ok tt, (increment_hit id s).1)
unfolding increment_hit
increment_hit_ok id s = ground arith

module _ {F : Type 0} ⦃f : Float F⦄ (np : Numpy F) (embeddings : EmbeddingService F)
    (hexdigest : Text → Text) (cache : SemanticCache F) (clock : LookupClock F)
    (signature : RequestSignature F) (prompt : Text) (threshold : Option F)
    (s : InMemoryVectorStore F) where
  -- The live entries of the request's namespace, the threshold, and the lookup.
  abbrev pub live : List (CacheEntry F)
  live = live_entries s clock.searched (namespace hexdigest signature)

  abbrev pub bound : F
  bound = effective (in_memory np) embeddings hexdigest cache threshold

  abbrev pub looked_up : Result (CacheLookup F) × InMemoryVectorStore F
  looked_up = lookup (in_memory np) embeddings hexdigest cache clock signature prompt threshold s

  -- Some live entry scores at least `limit`.
  abbrev pub Within : List F → F → Type 0
  Within vector limit =
      ∥ ((e : CacheEntry F) × Mem e live × (f.le limit (score_of np vector e) ≡ true)) ∥₁

  module _ (h : IsNumpy np) (o : IsOrdered f) (embedding : EmbeddingResult F)
      (embedded : embeddings.embed prompt ≡ ok embedding) where
    Within-iff :
        (limit : F) (r : ScoredEntry F) (rs : List (ScoredEntry F))
        → IsNearest np embedding.vector cache.top_k live (r ∷ rs)
        → (f.le limit r.score ≡ true) ↔ Within embedding.vector limit
    Within-iff limit r rs n = (
      λ t. ∣ (
        r.entry,
        first_live np embedding.vector cache.top_k live r rs n,
        subst (λ v. f.le limit v ≡ true) n.scored.0 t,
      ) ∣₁,
      λ w. ∥∥₁_elim w (hlevel) (λ (e, m, t).
          o.le_trans limit (score_of np embedding.vector e) r.score t
            (first_greatest np embedding.vector o cache.top_k live r rs n e m)),
    )

    near_iff :
        (r : ScoredEntry F)
        → f.le bound r.score ≡ false
        → in_window (in_memory np) embeddings hexdigest cache bound r.score
          ≡ f.le (f.sub bound cache.near_miss_window) r.score
    unfolding in_window
    near_iff r missed = ground (arith, o.lt-eq-not-le r.score bound)

    -- A hit means a live entry within the threshold; a near miss means no hit, and a live entry
    -- within the threshold less the window.
    pub record IsAnswer (l : CacheLookup F) : Type 0 where
      pub reached : (is_hit l ≡ true) ↔ Within embedding.vector bound
      pub near :
          (l.near_miss ≡ true)
          ↔ ((is_hit l ≡ false) × Within embedding.vector (f.sub bound cache.near_miss_window))

    -- What a lookup leaves: a hit counts on the entry of its match, and a miss changes nothing.
    pub data IsLeft (l : CacheLookup F) (after : InMemoryVectorStore F) : Type 0 where
      counted :
          (r : ScoredEntry F)
          → is_hit l ≡ true
          → l.match ≡ some r
          → after ≡ (increment_hit r.entry.id s).1
          → IsLeft l after
      unchanged : is_hit l ≡ false → after ≡ s → IsLeft l after

    abbrev report : CacheStatus → Option (ScoredEntry F) → Bool → CacheLookup F
    report = reported (in_memory np) embeddings hexdigest cache clock signature prompt threshold

    nothing-IsAnswer : live ≡ [] → IsAnswer (report miss none false)
    unfolding is_hit
    nothing-IsAnswer no_live =
        let none_within : (limit : F) → ¬ Within embedding.vector limit =
          λ limit w. ∥∥₁_elim w ⊥_prop (λ (x, m, _). not-mem-nil (subst (Mem x) no_live m)) in
        record {
          reached = (λ t. cc, λ w. absurd (none_within bound w));
          near = (λ t. cc, λ w. absurd (none_within _ w.1));
        }

    module _ (r : ScoredEntry F) (rs : List (ScoredEntry F))
        (n : IsNearest np embedding.vector cache.top_k live (r ∷ rs)) where
      reached-IsAnswer : f.le bound r.score ≡ true → IsAnswer (report hit (some r) false)
      unfolding is_hit
      reached-IsAnswer t = record {
        reached = (λ _. (Within-iff bound r rs n).0 t, λ _. refl);
        near = (λ e. cc, λ w. cc (w.0));
      }

      missed-IsAnswer :
          f.le bound r.score ≡ false
          → IsAnswer (
              report miss
                (some r)
                (in_window (in_memory np) embeddings hexdigest cache bound r.score))
      unfolding is_hit
      missed-IsAnswer t = record {
        reached = (λ e. cc, λ w. cc ((Within-iff bound r rs n).1 w));
        near = (
          λ e. (refl, (Within-iff _ r rs n).0 (sym (near_iff r t) ∙ e)),
          λ w. near_iff r t ∙ (Within-iff _ r rs n).1 w.1,
        );
      }

    answer :
        (found : List (ScoredEntry F))
        → 0 < cache.top_k
        → search np clock.searched (namespace hexdigest signature) embedding.vector cache.top_k s
          ≡ (ok found, s)
        → IsNearest np embedding.vector cache.top_k live found
        → (l : CacheLookup F) × (s' : InMemoryVectorStore F) × (looked_up ≡ (ok l, s'))
          × IsAnswer l
          × IsLeft l s'
    unfolding in_memory is_hit
    answer [] pos e n = (
      report miss none false,
      s,
      lookup_nothing _ embeddings hexdigest cache clock signature prompt threshold embedding s s
          embedded e,
      nothing-IsAnswer (nothing_live np embedding.vector cache.top_k live pos n),
      unchanged refl refl,
    )
    answer (r ∷ rs) pos e n = elim (Bool-cases (f.le bound r.score)) [
      | inl reached ↦ (
        report hit (some r) false,
        (increment_hit r.entry.id s).1,
        lookup_reached _ embeddings hexdigest cache clock signature prompt threshold embedding s s
            embedded r rs e _ reached (increment_hit_ok r.entry.id s),
        reached-IsAnswer r rs n reached,
        counted r refl refl refl,
      )
      | inr missed ↦ (
        report miss (some r) (in_window (in_memory np) embeddings hexdigest cache bound r.score),
        s,
        lookup_missed _ embeddings hexdigest cache clock signature prompt threshold embedding s s
            embedded r rs e missed,
        missed-IsAnswer r rs n missed,
        unchanged refl refl,
      )
    ]

    -- Where the prompt can be embedded and every live entry of the namespace has an embedding of
    -- that length, which is not zero, a lookup for at least one candidate raises nothing. It is a
    -- hit exactly when some live entry of the namespace scores at least the threshold, and a near
    -- miss exactly when it is no hit and some live entry scores at least the threshold less the
    -- window. A hit counts one more hit on the entry of its match and changes nothing else; a miss
    -- leaves the store as it is.
    pub lookup-IsAnswer :
        0 < length embedding.vector
        → 0 < cache.top_k
        → All (λ e. length e.embedding ≡ length embedding.vector) live
        → (l : CacheLookup F) × (s' : InMemoryVectorStore F) × (looked_up ≡ (ok l, s'))
          × IsAnswer l
          × IsLeft l s'
    lookup-IsAnswer long pos fits =
        let (found, e, n) =
          search-IsNearest np embedding.vector h clock.searched (namespace hexdigest signature)
            cache.top_k s long pos fits in
        answer found pos e n
