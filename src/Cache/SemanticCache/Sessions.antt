-- ===== src/Cache/SemanticCache/Sessions.antt =====
-- Any use of a cache over the in-memory store, where all embeddings have one length.
use llm_semantic_caching_lay.Prelude.{
  ℕ, ◌<◌, ◌/◌, max, ◌≡◌, refl, sym, subst, inl, inr, Bool-cases, Option-cases, Option, none, some,
  List, [], ◌∷◌, length, All, Text, text_eq, Result, ok, arith,
}
use llm_semantic_caching_lay.Prelude.Dict
use llm_semantic_caching_lay.Prelude.Dict.{Dict}
use llm_semantic_caching_lay.Prelude.Int.{pos}
use llm_semantic_caching_lay.Float.{Float, IsOrdered}
use llm_semantic_caching_lay.Models.Entry.{CacheEntry}
use llm_semantic_caching_lay.Embeddings.{EmbeddingResult, EmbeddingService}
use llm_semantic_caching_lay.Embeddings.Fake.{Hashing, fake, vector_for, embed, length-vector_for}
use llm_semantic_caching_lay.Cache.Namespace.{RequestSignature, namespace}
use llm_semantic_caching_lay.Cache.Numpy.{Numpy, IsNumpy}
use llm_semantic_caching_lay.Cache.MemoryStore.{
  InMemoryVectorStore, init, in_memory, live_entries, upsert, increment_hit, pop_all, delete, clear,
}
use llm_semantic_caching_lay.Cache.MemoryStore.Live.{live_of-All}
use llm_semantic_caching_lay.Cache.SemanticCache.{
  CacheLookup, SemanticCache, LookupClock, Fresh, Storing, entry_of, store_response,
}
use llm_semantic_caching_lay.Cache.SemanticCache.Hits.{
  looked_up, counted, unchanged, lookup-IsAnswer,
}

module _ {V : Type 0} (P : V → Type 0) where
  put-All :
      (d : Dict V) (k : Text) (v : V) → P v → All (λ p. P p.1) d → All (λ p. P p.1) (Dict.put d k v)
  unfolding Dict.put
  put-All [] k v h a = (h, tt)
  put-All ((j, w) ∷ d) k v h a = elim (Bool-cases (text_eq j k)) [
    | inl here ↦ rw here (h, a.1)
    | inr on ↦ rw on (a.0, put-All d k v h a.1)
  ]

  pop-All : (d : Dict V) (k : Text) → All (λ p. P p.1) d → All (λ p. P p.1) (Dict.pop d k)
  unfolding Dict.pop
  pop-All [] k a = tt
  pop-All ((j, w) ∷ d) k a = elim (Bool-cases (text_eq j k)) [
    | inl here ↦ rw here a.1
    | inr on ↦ rw on (a.0, pop-All d k a.1)
  ]

  get-All : (d : Dict V) (k : Text) {v : V} → All (λ p. P p.1) d → Dict.get d k ≡ some v → P v
  unfolding Dict.get
  get-All [] k a e = absurd (cc)
  get-All ((j, w) ∷ d) k a e = elim (Bool-cases (text_eq j k)) [
    | inl here ↦ subst P (ground (arith, e, here)) a.0
    | inr on ↦ get-All d k a.1 (ground (arith, e, on))
  ]

module _ {F : Type 0} (n : ℕ) where
  -- Every stored embedding has `n` numbers.
  abbrev pub AllFit : InMemoryVectorStore F → Type 0
  AllFit s = All (λ p. length p.1.embedding ≡ n) s.entries

  increment_hit-AllFit :
      (id : Text) (s : InMemoryVectorStore F) → AllFit s → AllFit (increment_hit id s).1
  unfolding increment_hit
  increment_hit-AllFit id s h = elim (Option-cases (Dict.get s.entries id)) [
    | inl e ↦ rw (e, increment_hit) h
    | inr (x, e) ↦
        rw (e, increment_hit)
          (put-All (λ y. length y.embedding ≡ n) s.entries id _
            (get-All (λ y. length y.embedding ≡ n) s.entries id h e) h)
  ]

  pop_all-AllFit :
      (ids : List Text) (d : Dict (CacheEntry F))
      → All (λ p. length p.1.embedding ≡ n) d
      → All (λ p. length p.1.embedding ≡ n) (pop_all ids d)
  unfolding pop_all
  pop_all-AllFit [] d h = h
  pop_all-AllFit (id ∷ ids) d h =
      pop_all-AllFit ids (Dict.pop d id) (pop-All (λ y. length y.embedding ≡ n) d id h)

  delete-AllFit :
      (model hash tag : Option Text) (s : InMemoryVectorStore F)
      → AllFit s
      → AllFit (delete model hash tag s).1
  unfolding delete
  delete-AllFit none none none s h = h
  delete-AllFit model hash tag s h = pop_all-AllFit _ s.entries h

-- The uses of a cache: the calls of `store_response` and `lookup`, and the invalidations.
pub data Use (F : Type 0) : Type 0 where
  storing : Fresh F → RequestSignature F → Storing F → Use F
  looking : LookupClock F → RequestSignature F → Text → Option F → Use F
  deleting : Option Text → Option Text → Option Text → Use F
  clearing : Use F

module _ {F : Type 0} ⦃f : Float F⦄ (np : Numpy F) (h : IsNumpy np) (o : IsOrdered f)
    (hashing : Hashing) (standard_normal : (seed size : ℕ) → List F) (model : Text) (dimensions : ℕ)
    (drawn : (seed size : ℕ) → length (standard_normal seed size) ≡ size) (hexdigest : Text → Text)
    (cache : SemanticCache F) where
  abbrev service : EmbeddingService F
  service = fake np hashing standard_normal model dimensions

  abbrev lookup_in :
      LookupClock F
      → RequestSignature F
      → Text
      → Option F
      → InMemoryVectorStore F
      → Result (CacheLookup F) × InMemoryVectorStore F
  lookup_in = looked_up np service hexdigest cache

  abbrev store_in :
      Fresh F
      → RequestSignature F
      → Storing F
      → InMemoryVectorStore F
      → Result (CacheEntry F) × InMemoryVectorStore F
  store_in = store_response (in_memory np) service hexdigest cache

  abbrev pub after_use : Use F → InMemoryVectorStore F → InMemoryVectorStore F
  after_use (storing fresh signature call) s = (store_in fresh signature call s).1
  after_use (looking clock signature prompt threshold) s =
      (lookup_in clock signature prompt threshold s).1
  after_use (deleting m hash t) s = (delete m hash t s).1
  after_use clearing s = (clear s).1

  -- The last use is the head of the list.
  abbrev pub used : List (Use F) → InMemoryVectorStore F
  used [] = init
  used (u ∷ us) = after_use u (used us)

  abbrev embedding_of : Text → EmbeddingResult F
  embedding_of text = record {
    vector = vector_for np hashing standard_normal model dimensions text;
    model = model;
    dimensions = dimensions;
    tokens = pos (max 1 (length text / 4));
  }

  embedded : (text : Text) → service.embed text ≡ ok (embedding_of text)
  unfolding fake embed
  embedded text = refl

  sized : (text : Text) → length (embedding_of text).vector ≡ dimensions
  sized = length-vector_for np hashing standard_normal model dimensions drawn

  abbrev kept : Fresh F → RequestSignature F → Storing F → CacheEntry F
  kept fresh signature call =
      entry_of (in_memory np) service hexdigest cache fresh signature call
        (embedding_of call.prompt).vector

  store_in_lem :
      (fresh : Fresh F) (signature : RequestSignature F) (call : Storing F)
      (s : InMemoryVectorStore F)
      → store_in fresh signature call s
        ≡ (ok (kept fresh signature call), (upsert (kept fresh signature call) s).1)
  unfolding store_response in_memory upsert
  store_in_lem fresh signature call s = rw (embedded call.prompt) refl

  store_in-AllFit :
      (fresh : Fresh F) (signature : RequestSignature F) (call : Storing F)
      (s : InMemoryVectorStore F)
      → AllFit dimensions s
      → AllFit dimensions (store_in fresh signature call s).1
  unfolding entry_of upsert
  store_in-AllFit fresh signature call s fits =
      rw (store_in_lem fresh signature call s) (
        put-All (λ y. length y.embedding ≡ dimensions) s.entries fresh.id _ (sized call.prompt)
          fits)

  module _ (long : 0 < dimensions) (some_asked : 0 < cache.top_k) where
    lookup_in-AllFit :
        (clock : LookupClock F) (signature : RequestSignature F) (prompt : Text)
        (threshold : Option F) (s : InMemoryVectorStore F)
        → AllFit dimensions s
        → (l : CacheLookup F) × (s' : InMemoryVectorStore F) × (lookup_in clock signature prompt
              threshold s
            ≡ (ok l, s'))
          × AllFit dimensions s'
    unfolding live_entries
    lookup_in-AllFit clock signature prompt threshold s fits =
        let (l, s', returned, answer, left) =
          lookup-IsAnswer np service hexdigest cache clock signature prompt threshold s h o
            (embedding_of prompt) (embedded prompt) (rw (sized prompt) long) some_asked
            (rw (sized prompt) (
              live_of-All (λ e. length e.embedding ≡ dimensions) clock.searched
                (namespace hexdigest signature) s.entries fits)) in
        elim left [
          | counted r _ _ e ↦
              (l, s', returned, rw e (increment_hit-AllFit dimensions r.entry.id s fits))
          | unchanged _ e ↦ (l, s', returned, rw e fits)
        ]

    used-AllFit : (uses : List (Use F)) → AllFit dimensions (used uses)
    unfolding clear
    used-AllFit [] = tt
    used-AllFit (storing fresh signature call ∷ us) =
        store_in-AllFit fresh signature call (used us) (used-AllFit us)
    used-AllFit (looking clock signature prompt threshold ∷ us) =
        let (l, s', returned, fits) =
          lookup_in-AllFit clock signature prompt threshold (used us) (used-AllFit us) in
        subst (λ t. AllFit dimensions t.1) (sym returned) fits
    used-AllFit (deleting m hash t ∷ us) =
        delete-AllFit dimensions m hash t (used us) (used-AllFit us)
    used-AllFit (clearing ∷ us) = tt

    -- A cache over the in-memory store and the hash-based embeddings, of at least one dimension,
    -- never fails: after any calls of store_response and lookup and any invalidations, from the
    -- empty store on, a lookup for at least one candidate returns an outcome, and a response is
    -- stored with an embedding of the dimensions. The generator draws as many numbers as it is asked
    -- for, NumPy sorts as documented, the floats are ordered, and texts are taken as encodable in
    -- UTF-8.
    pub lookup-used :
        (uses : List (Use F)) (clock : LookupClock F) (signature : RequestSignature F)
        (prompt : Text) (threshold : Option F) (fresh : Fresh F) (call : Storing F)
        → ((l : CacheLookup F) × (s : InMemoryVectorStore F) × (lookup_in clock signature prompt
                threshold
                (used uses)
              ≡ (ok l, s)))
          × ((e : CacheEntry F) × (s : InMemoryVectorStore F) × (store_in fresh signature call
                  (used uses)
                ≡ (ok e, s))
              × (length e.embedding ≡ dimensions))
    unfolding entry_of
    lookup-used uses clock signature prompt threshold fresh call =
        let (l, s, returned, fits) =
          lookup_in-AllFit clock signature prompt threshold (used uses) (used-AllFit uses) in
        ((l, s, returned), (_, _, store_in_lem fresh signature call (used uses), sized call.prompt))
