-- ===== src/Cache/MemoryStore/Histories.antt =====
-- Any sequence of calls keeps the invariant of the entries, and the store reads as a map from ids
-- to entries.
use llm_semantic_caching_lay.Prelude.{
  ◌+◌, ◌≡◌, refl, sym, ap, ◌∙◌, inl, inr, Bool-cases, Option-cases, Option, none, some, List, [],
  ◌∷◌, All, Text, text_eq, text_eq_iff, ok, arith, if◌then◌else◌,
}
use llm_semantic_caching_lay.Prelude.Dict
use llm_semantic_caching_lay.Prelude.Dict.{Dict, Distinct, get-put, put-Distinct}
use llm_semantic_caching_lay.Models.Entry.{CacheEntry}
use llm_semantic_caching_lay.Cache.MemoryStore.{
  InMemoryVectorStore, init, upsert, get, increment_hit, matches, matching_ids, pop_all, delete,
  clear,
}
use llm_semantic_caching_lay.Cache.MemoryStore.Deletion.{
  IsValid, filtered, get-remaining, remaining-IsValid, pop_all-matching_ids,
}

-- The calls that change a store.
pub data Call (F : Type 0) : Type 0 where
  upserting : CacheEntry F → Call F
  hitting : Text → Call F
  deleting : Option Text → Option Text → Option Text → Call F
  clearing : Call F

module _ {F : Type 0} where
  abbrev pub after : Call F → InMemoryVectorStore F → InMemoryVectorStore F
  after (upserting e) s = (upsert e s).1
  after (hitting id) s = (increment_hit id s).1
  after (deleting model hash tag) s = (delete model hash tag s).1
  after clearing s = (clear s).1

  -- The last call is the head of the list.
  abbrev pub history : List (Call F) → InMemoryVectorStore F
  history [] = init
  history (c ∷ cs) = after c (history cs)

  abbrev one_more_hit : Option (CacheEntry F) → Option (CacheEntry F)
  one_more_hit none = none
  one_more_hit (some e) = some (record e { hit_count = e.hit_count + 1 })

  abbrev survivor :
      Option Text → Option Text → Option Text → Option (CacheEntry F) → Option (CacheEntry F)
  survivor none none none o = o
  survivor model hash tag o = filtered (matches model hash tag) o

  -- The map that a history stands for.
  abbrev pub meaning : List (Call F) → Text → Option (CacheEntry F)
  meaning [] k = none
  meaning (upserting e ∷ cs) k = if text_eq e.id k then some e else meaning cs k
  meaning (hitting id ∷ cs) k = if text_eq id k then one_more_hit (meaning cs k) else meaning cs k
  meaning (deleting model hash tag ∷ cs) k = survivor model hash tag (meaning cs k)
  meaning (clearing ∷ cs) k = none

  put-ids :
      (d : Dict (CacheEntry F)) (k : Text) (v : CacheEntry F)
      → v.id ≡ k
      → All (λ p. p.1.id ≡ p.0) d
      → All (λ p. p.1.id ≡ p.0) (Dict.put d k v)
  unfolding Dict.put
  put-ids [] k v e h = (e, tt)
  put-ids ((j, w) ∷ d) k v e h = elim (Bool-cases (text_eq j k)) [
    | inl t ↦ rw t (ground (arith, text_eq_iff j k), h.1)
    | inr t ↦ rw t (h.0, put-ids d k v e h.1)
  ]

  id-get :
      (d : Dict (CacheEntry F)) (k : Text) (e : CacheEntry F)
      → All (λ p. p.1.id ≡ p.0) d
      → Dict.get d k ≡ some e
      → e.id ≡ k
  unfolding Dict.get
  id-get [] k e h g = cc
  id-get ((j, w) ∷ d) k e h g = elim (Bool-cases (text_eq j k)) [
    | inl t ↦
        let same : w ≡ e = ground arith in ap (λ x. x.id) (sym same) ∙ (h.0 ∙ (text_eq_iff j k).0 t)
    | inr t ↦ id-get d k e h.1 (ground arith)
  ]

  put-IsValid :
      (s : InMemoryVectorStore F) (k : Text) (v : CacheEntry F)
      → v.id ≡ k
      → IsValid s
      → IsValid (record s { entries = Dict.put s.entries k v })
  put-IsValid s k v e h = record {
    distinct = put-Distinct s.entries k v h.distinct;
    ids = put-ids s.entries k v e h.ids;
  }

  increment_hit-IsValid :
      (k : Text) (s : InMemoryVectorStore F) → IsValid s → IsValid (increment_hit k s).1
  unfolding increment_hit
  increment_hit-IsValid k s h = elim (Option-cases (Dict.get s.entries k)) [
    | inl e ↦ rw (e, increment_hit) h
    | inr (x, e) ↦ rw (e, increment_hit) (put-IsValid s k _ (id-get s.entries k x h.ids e) h)
  ]

  filtered-after :
      (m h t : Option Text) (s : InMemoryVectorStore F) (k : Text)
      → IsValid s
      → IsValid (record s { entries = pop_all (matching_ids (matches m h t) s.entries) s.entries })
        × (Dict.get (pop_all (matching_ids (matches m h t) s.entries) s.entries) k
            ≡ filtered (matches m h t) (Dict.get s.entries k))
  filtered-after m h t s k v =
      rw (pop_all-matching_ids (matches m h t) s.entries v.distinct) (
        remaining-IsValid (matches m h t) s v,
        get-remaining (matches m h t) s.entries k v.distinct,
      )

  delete-after :
      (m h t : Option Text) (s : InMemoryVectorStore F) (k : Text)
      → IsValid s
      → IsValid (delete m h t s).1
        × (Dict.get (delete m h t s).1.entries k ≡ survivor m h t (Dict.get s.entries k))
  unfolding delete
  delete-after none none none s k v = (v, refl)
  delete-after m h t s k v = filtered-after m h t s k v

  -- From the empty store, any calls leave the keys distinct and each entry under its own id.
  pub history-IsValid : (calls : List (Call F)) → IsValid (history calls)
  unfolding upsert clear
  history-IsValid [] = record { distinct = tt; ids = tt }
  history-IsValid (upserting e ∷ cs) = put-IsValid (history cs) e.id e refl (history-IsValid cs)
  history-IsValid (hitting id ∷ cs) = increment_hit-IsValid id (history cs) (history-IsValid cs)
  history-IsValid (deleting m h t ∷ cs) =
      (delete-after m h t (history cs) [] (history-IsValid cs)).0
  history-IsValid (clearing ∷ cs) = record { distinct = tt; ids = tt }

  get-increment_hit :
      (d : InMemoryVectorStore F) (id k : Text)
      → Dict.get (increment_hit id d).1.entries k
        ≡ (if text_eq id k then one_more_hit (Dict.get d.entries k) else Dict.get d.entries k)
  unfolding increment_hit
  get-increment_hit s id k = elim (Option-cases (Dict.get s.entries id)) [
    | inl e ↦ rw (e, increment_hit) (ground (arith, text_eq_iff id k))
    | inr (x, e) ↦ rw (e, increment_hit) (rw get-put (ground (arith, text_eq_iff id k)))
  ]

  reads_history :
      (calls : List (Call F)) (k : Text) → Dict.get (history calls).entries k ≡ meaning calls k
  unfolding upsert clear Dict.get
  reads_history [] k = refl
  reads_history (upserting e ∷ cs) k =
      get-put (history cs).entries e.id e k
      ∙ ap (λ o. if text_eq e.id k then some e else o) (reads_history cs k)
  reads_history (hitting id ∷ cs) k =
      get-increment_hit (history cs) id k
      ∙ ap (λ o. if text_eq id k then one_more_hit o else o) (reads_history cs k)
  reads_history (deleting m h t ∷ cs) k =
      (delete-after m h t (history cs) k (history-IsValid cs)).1
      ∙ ap (survivor m h t) (reads_history cs k)
  reads_history (clearing ∷ cs) k = refl

  -- After any calls from the empty store, `get` returns what the map of those calls holds: the
  -- entry last upserted under the id, with one hit more for each increment of the id since, unless a
  -- deletion that matched it or a flush came after. It changes nothing.
  pub get-history :
      (calls : List (Call F)) (k : Text)
      → get k (history calls) ≡ (ok (meaning calls k), history calls)
  unfolding get
  get-history calls k = rw reads_history
