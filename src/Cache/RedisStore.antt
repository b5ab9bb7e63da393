-- ===== src/Cache/RedisStore.antt =====
-- app/cache/store.py: `RedisVectorStore`. `Redis` stands for redis-py, and `Codec` for the dump of an
-- entry to JSON bytes and back.
pub mod Escaping
pub mod Entries
use llm_semantic_caching_lay.Prelude.{
  ℕ, ◌+◌, Bool, true, false, Option, none, some, List, [], ◌∷◌, ◌++◌, map, length, ◌==◌, Text,
  codes, truthy, join, Exec, Result, ok, raise, and_then, continue, pure, lift, ◌>>=◌, ◌>>◌,
  if◌then◌else◌,
}
use llm_semantic_caching_lay.Prelude.Int.{ℤ, pos, ltb_ℤ}
use llm_semantic_caching_lay.Prelude.Decimal.{str_int}
use llm_semantic_caching_lay.Float.{Float}
use llm_semantic_caching_lay.Models.Entry.{CacheEntry, ScoredEntry}
use llm_semantic_caching_lay.Cache.VectorStore.{VectorStore}

-- A field of a hash: text, a number, or the bytes of a vector.
pub data Value (F : Type 0) : Type 0 where
  text : Text → Value F
  number : F → Value F
  vector : List F → Value F

-- A query, with what its methods set.
pub record Query (F : Type 0) : Type 0 where
  pub query_string : Text
  pub sort_by : Option Text
  pub return_fields : List Text
  pub paging : Option (ℕ × ℕ)
  pub vec : Option (List F)

pub record Document (F : Type 0) : Type 0 where
  pub id : Text
  pub content : Text
  pub dist : F

-- The calls of the client, over an unknown state of the server.
pub record Redis (F R : Type 0) : Type 0 where
  pub hset : (key : Text) → List (Text × Value F) → Exec R (Unit {0})
  pub hget : (key name : Text) → Exec R (Option Text)
  pub expire : (key : Text) → ℤ → Exec R (Unit {0})
  pub delete : List Text → Exec R (Unit {0})
  pub search : (index : Text) → Query F → Exec R (List (Document F))
  -- `num_docs` of an index's `info`
  pub info : (index : Text) → Exec R (Option ℕ)
  pub create_index : (index prefix : Text) (dimensions : ℤ) → Exec R (Unit {0})

-- `orjson.dumps(entry.model_dump())` and `CacheEntry.model_validate(orjson.loads(raw))`, and
-- `np.float32`.
pub record Codec (F : Type 0) : Type 0 where
  pub dump : CacheEntry F → Result Text
  pub load : Text → Result (CacheEntry F)
  pub float32 : F → F

pub record RedisVectorStore : Type 0 where
  pub index : Text
  pub dimensions : ℤ

-- `out.replace(ch, f"\\{ch}")`.
unfoldable pub replace : ℕ → Text → Text
replace ch [] = []
replace ch (c ∷ s) = let rest = replace ch s in if c == ch then b'\\' ∷ ch ∷ rest else c ∷ rest

unfoldable pub replace_all : List ℕ → Text → Text
unfolding replace
replace_all [] out = out
replace_all (ch ∷ chs) out = replace_all chs (replace ch out)

abbrev pub special : List ℕ
special = codes "-.@{}|/ "

unfoldable pub escape_tag : Text → Text
unfolding replace_all
escape_tag value = replace_all special value

-- `value or "none"`.
abbrev pub or_none : Text → Text
or_none [] = codes "none"
or_none (c ∷ s) = c ∷ s

-- `",".join(tags) if tags else "none"`.
unfoldable pub tags_value : List Text → Text
unfolding join
tags_value [] = codes "none"
tags_value (tag ∷ tags) = join (codes ",") (tag ∷ tags)

-- One clause of a query, where the filter is given and not empty.
unfoldable pub clause : Text → Option Text → List Text
unfolding escape_tag
clause name none = []
clause name (some value) =
    if truthy value
    then (codes "@" ++ (name ++ (codes ":{" ++ (escape_tag value ++ codes "}")))) ∷ []
    else []

unfoldable pub clauses : (model system_prompt_hash tag : Option Text) → List Text
unfolding clause
clauses model system_prompt_hash tag =
    clause (codes "model") model
    ++ (clause (codes "system_prompt_hash") system_prompt_hash ++ clause (codes "tags") tag)

unfoldable pub knn_query : Text → ℕ → Text
unfolding escape_tag str_int
knn_query namespace top_k =
    codes "(@namespace:{"
    ++ (escape_tag namespace
        ++ (codes "})=>[KNN " ++ (str_int (pos top_k) ++ codes " @embedding $vec AS dist]")))

module _ {F R : Type 0} ⦃f : Float F⦄ (redis : Redis F R) (codec : Codec F)
    (store : RedisVectorStore) where
  abbrev pub prefix : Text
  prefix = store.index ++ codes ":entry:"

  unfoldable pub key : Text → Text
  key entry_id = prefix ++ entry_id

  -- An index that `info` does not know is created.
  unfoldable pub ensure_index : Exec R (Unit {0})
  ensure_index s =
      let (known, after) = redis.info store.index s in
      elim known [
        | ok n ↦ (ok tt, after)
        | raise e ↦ redis.create_index store.index prefix store.dimensions after
      ]

  unfoldable pub mapping : CacheEntry F → Text → List (Text × Value F)
  unfolding tags_value
  mapping entry data_bytes =
      (codes "namespace", text entry.namespace)
      ∷ (codes "model", text entry.model)
      ∷ (codes "provider", text entry.provider)
      ∷ (codes "system_prompt_hash", text (or_none entry.system_prompt_hash))
      ∷ (codes "tags", text (tags_value entry.tags))
      ∷ (codes "created_at", number entry.created_at)
      ∷ (codes "embedding", vector (map codec.float32 entry.embedding))
      ∷ (codes "data", text data_bytes)
      ∷ []

  unfoldable pub upsert : CacheEntry F → Exec R (Unit {0})
  unfolding mapping key
  upsert entry = do
    data_bytes ← lift (codec.dump entry)
    redis.hset (key entry.id) (mapping entry data_bytes)
    (if ltb_ℤ (pos 0) entry.ttl_seconds
        then redis.expire (key entry.id) entry.ttl_seconds
        else pure tt)

  -- The loop over the documents: the similarity is one less the distance.
  unfoldable pub scored : List (Document F) → Result (List (ScoredEntry F))
  scored [] = ok []
  scored (doc ∷ docs) =
      let rest = scored docs in
      and_then (codec.load doc.content) (λ entry.
        and_then rest
          (λ others. ok (record { entry = entry; score = f.sub (f.ratio 1 1) doc.dist } ∷ others)))

  unfoldable pub search : Text → List F → ℕ → Exec R (List (ScoredEntry F))
  unfolding scored knn_query
  search namespace query top_k = do
    docs ← redis.search store.index (record {
      query_string = knn_query namespace top_k;
      sort_by = some (codes "dist");
      return_fields = codes "data" ∷ codes "dist" ∷ [];
      paging = none;
      vec = some (map codec.float32 query);
    })
    lift (scored docs)

  unfoldable pub get : Text → Exec R (Option (CacheEntry F))
  unfolding key
  get entry_id = do
    raw ← redis.hget (key entry_id) (codes "data")
    elim raw [
      | none ↦ pure none
      | some bytes ↦ lift (and_then (codec.load bytes) (λ entry. ok (some entry)))
    ]

  -- The entry is read, and its data written back.
  unfoldable pub increment_hit : Text → Exec R (Unit {0})
  unfolding key
  increment_hit entry_id = do
    found ← get entry_id
    elim found [
      | none ↦ pure tt
      | some entry ↦ do
        data_bytes ← lift (codec.dump (record entry { hit_count = entry.hit_count + 1 }))
        redis.hset (key entry_id) ((codes "data", text data_bytes) ∷ [])
    ]

  -- At most 10,000 documents.
  unfoldable pub delete_matching : Text → Exec R ℕ
  delete_matching query_string = do
    docs ← redis.search store.index (record {
      query_string = query_string;
      sort_by = none;
      return_fields = codes "id" ∷ [];
      paging = some (0, 10000);
      vec = none;
    })
    elim docs [
      | [] ↦ pure 0
      | doc ∷ rest ↦ do redis.delete (map (λ d. d.id) (doc ∷ rest)); pure (length (doc ∷ rest))
    ]

  unfoldable pub delete : Option Text → Option Text → Option Text → Exec R ℕ
  unfolding clauses join
  delete model system_prompt_hash tag = elim (clauses model system_prompt_hash tag) [
    | [] ↦ pure 0
    | c ∷ cs ↦ delete_matching (join (codes " ") (c ∷ cs))
  ]

  unfoldable pub clear : Exec R ℕ
  clear = delete_matching (codes "*")

  unfoldable pub count : Exec R ℕ
  count = do docs ← redis.info store.index; pure (elim docs [ none ↦ 0 | some n ↦ n ])

  -- The interface's implementation; the server keeps its own time.
  unfoldable pub redis_store : VectorStore F R
  redis_store = record {
    ensure_index = ensure_index;
    upsert = upsert;
    search = λ clock. search;
    get = get;
    increment_hit = increment_hit;
    delete = delete;
    clear = clear;
    count = count;
  }
