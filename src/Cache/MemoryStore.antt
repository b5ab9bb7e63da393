-- ===== src/Cache/MemoryStore.antt =====
-- app/cache/memory_store.py: the entries by id, searched exhaustively.
pub mod Scores
pub mod Search
pub mod Live
pub mod Selection
pub mod Deletion
pub mod Histories
use llm_semantic_caching_lay.Prelude.{
  ℕ, zero, suc, ◌+◌, ◌≡◌, Bool, true, false, not, ◌&&◌, Option, none, some, List, [], ◌∷◌, map,
  length, any, Text, text_eq, Exec, Result, ok, raise, and_then, if◌then◌else◌,
}
use llm_semantic_caching_lay.Prelude.Dict
use llm_semantic_caching_lay.Prelude.Dict.{Dict}
use llm_semantic_caching_lay.Float.{Float}
use llm_semantic_caching_lay.Models.Entry.{CacheEntry, ScoredEntry, is_expired}
use llm_semantic_caching_lay.Cache.Numpy.{Numpy, index, asarray}
use llm_semantic_caching_lay.Cache.Similarity.{cosine_similarity_matrix, top_k_indices}
use llm_semantic_caching_lay.Cache.VectorStore.{VectorStore, Clock}

-- The object: `self._entries`.
pub record InMemoryVectorStore (F : Type 0) : Type 0 where
  pub entries : Dict (CacheEntry F)

-- An absent filter admits every entry.
abbrev pub is_or_absent : Option Text → Text → Bool
is_or_absent none t = true
is_or_absent (some wanted) t = text_eq t wanted

abbrev pub has_or_absent : Option Text → List Text → Bool
has_or_absent none tags = true
has_or_absent (some tag) tags = any (text_eq tag) tags

module _ {F : Type 0} where
  abbrev pub init : InMemoryVectorStore F
  init = record { entries = [] }

  unfoldable pub ensure_index : Exec (InMemoryVectorStore F) (Unit {0})
  ensure_index s = (ok tt, s)

  unfoldable pub upsert : CacheEntry F → Exec (InMemoryVectorStore F) (Unit {0})
  upsert entry s = (ok tt, record s { entries = Dict.put s.entries entry.id entry })

  unfoldable pub get : Text → Exec (InMemoryVectorStore F) (Option (CacheEntry F))
  get entry_id s = (ok (Dict.get s.entries entry_id), s)

  -- The entry is mutated where it stands.
  unfoldable pub increment_hit : Text → Exec (InMemoryVectorStore F) (Unit {0})
  increment_hit entry_id s = elim (Dict.get s.entries entry_id) [
    | none ↦ (ok tt, s)
    | some entry ↦ (
      ok tt,
      record s {
        entries = Dict.put s.entries entry_id (record entry { hit_count = entry.hit_count + 1 });
      },
    )
  ]

  unfoldable pub matches : Option Text → Option Text → Option Text → CacheEntry F → Bool
  matches model system_prompt_hash tag entry =
      if not (is_or_absent model entry.model)
      then false
      else if not (is_or_absent system_prompt_hash entry.system_prompt_hash)
      then false
      else has_or_absent tag entry.tags

  -- `[eid for eid, entry in self._entries.items() if matches(entry)]`.
  unfoldable pub matching_ids : (CacheEntry F → Bool) → Dict (CacheEntry F) → List Text
  matching_ids p [] = []
  matching_ids p ((eid, entry) ∷ d) =
      let rest = matching_ids p d in if p entry then eid ∷ rest else rest

  unfoldable pub pop_all : List Text → Dict (CacheEntry F) → Dict (CacheEntry F)
  pop_all [] d = d
  pop_all (eid ∷ eids) d = pop_all eids (Dict.pop d eid)

  unfoldable pub delete : Option Text → Option Text → Option Text → Exec (InMemoryVectorStore F) ℕ
  delete none none none s = (ok 0, s)
  delete model system_prompt_hash tag s =
      let to_delete = matching_ids (matches model system_prompt_hash tag) s.entries in
      (ok (length to_delete), record s { entries = pop_all to_delete s.entries })

  unfoldable pub clear : Exec (InMemoryVectorStore F) ℕ
  clear s = (ok (length s.entries), record s { entries = [] })

  unfoldable pub count : Exec (InMemoryVectorStore F) ℕ
  count s = (ok (length s.entries), s)

  -- The list that `search` builds from the indices: `entries[i]` beside `scores[i]`.
  unfoldable pub scored_at : List (CacheEntry F) → List F → List ℕ → Result (List (ScoredEntry F))
  unfolding index
  scored_at entries scores [] = ok []
  scored_at entries scores (i ∷ is) = and_then (index entries i) (λ entry.
      and_then (index scores i) (λ score.
        and_then (scored_at entries scores is)
          (λ rest. ok (record { entry = entry; score = score } ∷ rest))))

module _ {F : Type 0} ⦃f : Float F⦄ where
  -- The loop of `_live_entries`.
  unfoldable pub live_of : Clock F → Text → Dict (CacheEntry F) → List (CacheEntry F)
  live_of clock namespace [] = []
  live_of clock namespace ((eid, entry) ∷ d) =
      let rest = live_of clock namespace d in
      if not (text_eq entry.namespace namespace)
      then rest
      else if is_expired entry (some clock.now) clock.reread
      then rest
      else entry ∷ rest

  unfoldable pub live_entries : InMemoryVectorStore F → Clock F → Text → List (CacheEntry F)
  unfolding live_of
  live_entries s clock namespace = live_of clock namespace s.entries

  -- `search` from its test for no live entries on.
  unfoldable pub search_live :
      Numpy F → List (CacheEntry F) → List F → ℕ → Result (List (ScoredEntry F))
  search_live np [] vector top_k = ok []
  search_live np (e ∷ es) vector top_k =
      let query = map np.float32 vector in
      and_then (asarray (map (λ x. map np.float32 x.embedding) (e ∷ es))) (λ matrix.
        and_then (cosine_similarity_matrix np query matrix) (λ scores.
          and_then (top_k_indices np scores top_k) (λ indices. scored_at (e ∷ es) scores indices)))

  unfoldable pub search :
      Numpy F → Clock F → Text → List F → ℕ → Exec (InMemoryVectorStore F) (List (ScoredEntry F))
  search np clock namespace vector top_k s =
      (search_live np (live_entries s clock namespace) vector top_k, s)

  unfoldable pub in_memory : Numpy F → VectorStore F (InMemoryVectorStore F)
  in_memory np = record {
    ensure_index = ensure_index;
    upsert = upsert;
    search = search np;
    get = get;
    increment_hit = increment_hit;
    delete = delete;
    clear = clear;
    count = count;
  }
