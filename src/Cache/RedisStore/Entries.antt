-- ===== src/Cache/RedisStore/Entries.antt =====
-- What is read back of a Redis store.
use llm_semantic_caching_lay.Prelude.{
  ◌≡◌, ◌≢◌, refl, ◌∙◌, inl, inr, Bool-cases, Option-cases, and_then, ◌+◌, ◌⊎◌, true, Option, none,
  some, List, [], ◌∷◌, ◌++◌, Text, codes, text_eq, text_eq_iff, Result, ok, if◌then◌else◌,
}
use llm_semantic_caching_lay.Prelude.Int.{ℤ, pos, ltb_ℤ}
use llm_semantic_caching_lay.Float.{Float}
use llm_semantic_caching_lay.Models.Entry.{CacheEntry}
use llm_semantic_caching_lay.Cache.RedisStore.{
  Value, text, Redis, Codec, RedisVectorStore, key, mapping, upsert, get, increment_hit,
}

-- The text that a hash's field has after fields are written to the hash.
unfoldable pub written : {F : Type 0} → List (Text × Value F) → Text → Option Text → Option Text
written [] name before = before
written ((k, text t) ∷ fields) name before =
    written fields name (if text_eq k name then some t else before)
written ((k, v) ∷ fields) name before = written fields name before

module _ {F R : Type 0} (redis : Redis F R) where
  -- What the program relies on of hashes: what a field reads as is a function `read` of the state,
  -- `hset` succeeds, writes its fields and touches no other hash, and `expire` leaves what is read
  -- at once as it is.
  pub record IsHashes (read : R → Text → Text → Option Text) : Type 0 where
    pub hget_lem : (s : R) (k n : Text) → redis.hget k n s ≡ (ok (read s k n), s)
    pub hset_lem :
        (s : R) (k : Text) (fields : List (Text × Value F))
        → redis.hset k fields s ≡ (ok tt, (redis.hset k fields s).1)
    pub read_same :
        (s : R) (k n : Text) (fields : List (Text × Value F))
        → read (redis.hset k fields s).1 k n ≡ written fields n (read s k n)
    pub read_other :
        (s : R) (k j n : Text) (fields : List (Text × Value F))
        → j ≢ k
        → read (redis.hset k fields s).1 j n ≡ read s j n
    pub expire_lem :
        (s : R) (k : Text) (t : ℤ) → redis.expire k t s ≡ (ok tt, (redis.expire k t s).1)
    pub read_expire :
        (s : R) (k j n : Text) (t : ℤ)
        → ltb_ℤ (pos 0) t ≡ true
        → read (redis.expire k t s).1 j n ≡ read s j n

append-cancel : (p a b : Text) → p ++ a ≡ p ++ b → a ≡ b
append-cancel [] a b h = h
append-cancel (c ∷ p) a b h = append-cancel p a b (cc)

module _ {F R : Type 0} ⦃f : Float F⦄ (redis : Redis F R) (codec : Codec F)
    (store : RedisVectorStore) (read : R → Text → Text → Option Text)
    (hashes : IsHashes redis read) where
  -- Two ids have two keys.
  key-cancel : (a b : Text) → key redis codec store a ≡ key redis codec store b → a ≡ b
  unfolding key
  key-cancel a b h = append-cancel _ a b h

  -- What `get` makes of the field it reads.
  abbrev loaded : Option Text → Result (Option (CacheEntry F))
  loaded none = ok none
  loaded (some bytes) = and_then (codec.load bytes) (λ e. ok (some e))

  get-loaded :
      (id : Text) (s : R)
      → get redis codec store id s ≡ (loaded (read s (key redis codec store id) (codes "data")), s)
  unfolding get
  get-loaded id s = elim (Option-cases (read s (key redis codec store id) (codes "data"))) [
    | inl e ↦ rw (hashes.hget_lem s, e) refl
    | inr (bytes, e) ↦ rw (hashes.hget_lem s, e) refl
  ]

  module _ (e : CacheEntry F) (bytes : Text) (dumped : codec.dump e ≡ ok bytes) (s : R) where
    abbrev put : R
    put = (redis.hset (key redis codec store e.id) (mapping redis codec store e bytes) s).1

    -- The state that `upsert` leaves.
    abbrev pub after : R
    after =
        if ltb_ℤ (pos 0) e.ttl_seconds
        then (redis.expire (key redis codec store e.id) e.ttl_seconds put).1
        else put

    upsert-after : upsert redis codec store e s ≡ (ok tt, after)
    unfolding upsert
    upsert-after = elim (Bool-cases (ltb_ℤ (pos 0) e.ttl_seconds)) [
      | inl t ↦
          rw (dumped, hashes.hset_lem, t)
            (hashes.expire_lem put (key redis codec store e.id) e.ttl_seconds)
      | inr t ↦ rw (dumped, hashes.hset_lem, t) refl
    ]

    read-after : (j n : Text) → read after j n ≡ read put j n
    read-after j n = elim (Bool-cases (ltb_ℤ (pos 0) e.ttl_seconds)) [
      | inl t ↦ rw t (hashes.read_expire put (key redis codec store e.id) j n e.ttl_seconds t)
      | inr t ↦ rw t refl
    ]

    -- The field that `get` reads.
    read-put : read put (key redis codec store e.id) (codes "data") ≡ some bytes
    unfolding written mapping text_eq
    read-put = hashes.read_same s (key redis codec store e.id) (codes "data") _

    -- With Redis reading and writing hashes as documented and an entry that is dumped to bytes that
    -- load as it, `upsert` succeeds, and then `get` of its id returns the entry, whatever was there
    -- before, while `get` of any other id returns what it did before. `get` changes nothing.
    pub get-upsert :
        codec.load bytes ≡ ok e
        → (upsert redis codec store e s ≡ (ok tt, after))
          × (get redis codec store e.id after ≡ (ok (some e), after))
          × ((id : Text)
              → (id ≡ e.id)
                ⊎ (get redis codec store id after ≡ ((get redis codec store id s).0, after)))
    get-upsert loads = (
      upsert-after,
      get-loaded e.id after ∙ rw (read-after, read-put, loads) refl,
      λ id. elim (Bool-cases (text_eq id e.id)) [
        | inl same ↦ inl ((text_eq_iff id e.id).0 same)
        | inr other ↦ inr (
            get-loaded id after
            ∙ rw
                (
                  read-after (key redis codec store id),
                  get-loaded id s,
                  hashes.read_other s (key redis codec store e.id) (key redis codec store id)
                      (codes "data") _
                      (λ same_key.
                        cc (other, (text_eq_iff id e.id).1 (key-cancel id e.id same_key))),
                )
                refl)
      ],
    )

  -- A hit counted: the entry is read, and written back with one hit more.
  pub get-increment_hit :
      (id bytes bytes' : Text) (e : CacheEntry F) (s : R)
      → read s (key redis codec store id) (codes "data") ≡ some bytes
      → codec.load bytes ≡ ok e
      → codec.dump (record e { hit_count = e.hit_count + 1 }) ≡ ok bytes'
      → codec.load bytes' ≡ ok (record e { hit_count = e.hit_count + 1 })
      → (s' : R) × (increment_hit redis codec store id s ≡ (ok tt, s'))
        × (get redis codec store id s' ≡ (ok (some (record e { hit_count = e.hit_count + 1 })), s'))
  unfolding increment_hit written text_eq
  get-increment_hit id bytes bytes' e s held loads dumps again =
      let s' : R = (redis.hset (key redis codec store id) ((codes "data", text bytes') ∷ []) s).1 in
      (
        s',
        rw (get-loaded id s, held, loads, dumps) (hashes.hset_lem s (key redis codec store id) _),
        get-loaded id s' ∙ rw (hashes.read_same s (key redis codec store id), again) refl,
      )
