-- ===== src/Cache/MemoryStore/Deletion.antt =====
-- `delete`: what it removes, what it keeps, and the invariant of the entries.
use llm_semantic_caching_lay.Prelude.{
  ℕ, ◌+◌, ◌≡◌, ◌≢◌, refl, ap, ◌∙◌, inl, inr, Bool-cases, Option, none, some, Bool, not, List, [],
  ◌∷◌, length, keep, All, Text, text_eq_iff, text_eq_refl, Result, ok, arith, if◌then◌else◌,
}
use llm_semantic_caching_lay.Prelude.Dict
use llm_semantic_caching_lay.Prelude.Dict.{Dict, Distinct, get-put, put-Distinct, get-absent}
use llm_semantic_caching_lay.Models.Entry.{CacheEntry}
use llm_semantic_caching_lay.Cache.MemoryStore.{
  InMemoryVectorStore, matches, matching_ids, pop_all, delete,
}
use llm_semantic_caching_lay.Cache.MemoryStore.Selection.{
  HasFilter, IsSelected, matches→IsSelected, IsSelected→matches,
}

module _ {F : Type 0} where
  -- Keys stand once, and an entry stands under its own id.
  pub record IsValid (s : InMemoryVectorStore F) : Type 0 where
    pub distinct : Distinct s.entries
    pub ids : All (λ p. p.1.id ≡ p.0) s.entries

  -- What a deletion makes of the entry under a key.
  pub data Fate (model hash tag : Option Text) (before after : Option (CacheEntry F)) : Type 0 where
    absent : before ≡ none → after ≡ none → Fate model hash tag before after
    deleted :
        (e : CacheEntry F)
        → before ≡ some e
        → IsSelected model hash tag e
        → after ≡ none
        → Fate model hash tag before after
    kept :
        (e : CacheEntry F)
        → before ≡ some e
        → ¬ IsSelected model hash tag e
        → after ≡ some e
        → Fate model hash tag before after

  removed_pass :
      (p : CacheEntry F → Bool) (d : Dict (CacheEntry F)) (k : Text)
      → All (λ q. q.0 ≢ k) d
      → All (λ j. j ≢ k) (matching_ids p d)
  unfolding matching_ids
  removed_pass p [] k h = tt
  removed_pass p ((j, e) ∷ d) k h = elim (Bool-cases (p e)) [
    | inl t ↦ rw t (h.0, removed_pass p d k h.1)
    | inr t ↦ rw t (removed_pass p d k h.1)
  ]

  pop_all-cons :
      (ids : List Text) (k : Text) (e : CacheEntry F) (d : Dict (CacheEntry F))
      → All (λ j. j ≢ k) ids
      → pop_all ids ((k, e) ∷ d) ≡ (k, e) ∷ pop_all ids d
  unfolding pop_all Dict.pop
  pop_all-cons [] k e d h = refl
  pop_all-cons (j ∷ ids) k e d h =
      ground (arith, text_eq_iff k j, pop_all-cons ids k e (Dict.pop d j))

  pop_all_head :
      (ids : List Text) (k : Text) (e : CacheEntry F) (d : Dict (CacheEntry F))
      → pop_all (k ∷ ids) ((k, e) ∷ d) ≡ pop_all ids d
  unfolding pop_all Dict.pop
  pop_all_head ids k e d = rw text_eq_refl

  pub remaining : (CacheEntry F → Bool) → Dict (CacheEntry F) → Dict (CacheEntry F)
  unfolding keep
  remaining p = keep (λ q. not (p q.1))

  pub pop_all-matching_ids :
      (p : CacheEntry F → Bool) (d : Dict (CacheEntry F))
      → Distinct d
      → pop_all (matching_ids p d) d ≡ remaining p d
  unfolding matching_ids remaining
  pop_all-matching_ids p [] h = unfold pop_all in refl
  pop_all-matching_ids p ((k, e) ∷ d) h = elim (Bool-cases (p e)) [
    | inl t ↦ rw (t, pop_all_head (matching_ids p d) k e d) (pop_all-matching_ids p d h.1)
    | inr t ↦ rw (
      t,
      pop_all-cons (matching_ids p d) k e d (removed_pass p d k h.0),
      pop_all-matching_ids p d h.1,
    )
  ]

  length-matching_ids :
      (p : CacheEntry F → Bool) (d : Dict (CacheEntry F))
      → length (matching_ids p d) + length (remaining p d) ≡ length d
  unfolding matching_ids remaining
  length-matching_ids p [] = omega arith
  length-matching_ids p ((k, e) ∷ d) = ground (arith, length-matching_ids p d)

  remaining-All :
      (P : Text × CacheEntry F → Type 0) (p : CacheEntry F → Bool) (d : Dict (CacheEntry F))
      → All P d
      → All P (remaining p d)
  unfolding remaining
  remaining-All P p [] h = tt
  remaining-All P p ((k, e) ∷ d) h = elim (Bool-cases (p e)) [
    | inl t ↦ rw t (remaining-All P p d h.1)
    | inr t ↦ rw t (h.0, remaining-All P p d h.1)
  ]

  remaining-Distinct :
      (p : CacheEntry F → Bool) (d : Dict (CacheEntry F)) → Distinct d → Distinct (remaining p d)
  unfolding remaining
  remaining-Distinct p [] h = tt
  remaining-Distinct p ((k, e) ∷ d) h = elim (Bool-cases (p e)) [
    | inl t ↦ rw t (remaining-Distinct p d h.1)
    | inr t ↦ rw t (remaining-All (λ q. q.0 ≢ k) p d h.0, remaining-Distinct p d h.1)
  ]

  abbrev pub filtered : (CacheEntry F → Bool) → Option (CacheEntry F) → Option (CacheEntry F)
  filtered p none = none
  filtered p (some e) = if p e then none else some e

  pub get-remaining :
      (p : CacheEntry F → Bool) (d : Dict (CacheEntry F)) (k : Text)
      → Distinct d
      → Dict.get (remaining p d) k ≡ filtered p (Dict.get d k)
  unfolding remaining Dict.get
  get-remaining p [] k h = refl
  get-remaining p ((j, e) ∷ d) k h =
      ground (arith, get-remaining p d k h.1, text_eq_iff j k, get-absent d j h.0)

  remaining-Fate :
      (m h t : Option Text) (d : Dict (CacheEntry F)) (k : Text)
      → HasFilter m h t
      → Distinct d
      → Fate m h t (Dict.get d k) (Dict.get (remaining (matches m h t) d) k)
  remaining-Fate m h t d k asked distinct =
      rw (get-remaining (matches m h t) d k distinct) (judge (Dict.get d k))
    where
      judge : (o : Option (CacheEntry F)) → Fate m h t o (filtered (matches m h t) o)
      judge none = absent refl refl
      judge (some e) = elim (Bool-cases (matches m h t e)) [
        | inl hit ↦ deleted e refl (matches→IsSelected m h t e asked hit) (rw hit)
        | inr miss ↦ kept e refl (λ q. cc (IsSelected→matches m h t e q)) (rw miss)
      ]

  pub remaining-IsValid :
      (p : CacheEntry F → Bool) (s : InMemoryVectorStore F)
      → IsValid s
      → IsValid (record s { entries = remaining p s.entries })
  remaining-IsValid p s v = record {
    distinct = remaining-Distinct p s.entries v.distinct;
    ids = remaining-All (λ q. q.1.id ≡ q.0) p s.entries v.ids;
  }

  filtered_delete :
      (m h t : Option Text) (s : InMemoryVectorStore F) (k : Text)
      → HasFilter m h t
      → IsValid s
      → delete m h t s ≡ (
        ok (length (matching_ids (matches m h t) s.entries)),
        record s { entries = pop_all (matching_ids (matches m h t) s.entries) s.entries },
      )
      → (n : ℕ) × (s' : InMemoryVectorStore F) × (delete m h t s ≡ (ok n, s'))
        × IsValid s'
        × (n + length s'.entries ≡ length s.entries)
        × Fate m h t (Dict.get s.entries k) (Dict.get s'.entries k)
  filtered_delete m h t s k asked v e = (
    length (matching_ids (matches m h t) s.entries),
    record s { entries = remaining (matches m h t) s.entries },
    e
        ∙ ap
            (λ d.
              let r : Result ℕ × InMemoryVectorStore F =
                (ok (length (matching_ids (matches m h t) s.entries)), record s { entries = d }) in
              r)
            (pop_all-matching_ids (matches m h t) s.entries v.distinct),
    remaining-IsValid (matches m h t) s v,
    length-matching_ids (matches m h t) s.entries,
    remaining-Fate m h t s.entries k asked v.distinct,
  )

  -- `delete` never raises, returns the number of entries it removed, and keeps the invariant. An
  -- entry is removed exactly when at least one filter is given and the entry meets every filter
  -- given; every other entry stays under its key.
  pub delete-Fate :
      (model hash tag : Option Text) (s : InMemoryVectorStore F) (k : Text)
      → IsValid s
      → (n : ℕ) × (s' : InMemoryVectorStore F) × (delete model hash tag s ≡ (ok n, s'))
        × IsValid s'
        × (n + length s'.entries ≡ length s.entries)
        × Fate model hash tag (Dict.get s.entries k) (Dict.get s'.entries k)
  unfolding delete
  delete-Fate none none none s k v = (0, s, refl, v, omega arith, untouched (Dict.get s.entries k))
    where
      untouched : (o : Option (CacheEntry F)) → Fate none none none o o
      untouched none = absent refl refl
      untouched (some e) = kept e refl (λ q. q.asked) refl
  delete-Fate (some m) hash tag s k v = filtered_delete (some m) hash tag s k tt v refl
  delete-Fate none (some h) tag s k v = filtered_delete none (some h) tag s k tt v refl
  delete-Fate none none (some t) s k v = filtered_delete none none (some t) s k tt v refl
