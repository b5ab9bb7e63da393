-- ===== src/Cache/SemanticCache.antt =====
-- app/cache/semantic_cache.py. Log lines are left out; what the clock and `uuid4` give during a call
-- are arguments.
pub mod Steps
pub mod Hits
pub mod Best
pub mod Reuse
pub mod Sessions
use mathlib.Core.List.{head?}
use llm_semantic_caching_lay.Prelude.{
  ℕ, Bool, true, false, ◌&&◌, Option, none, some, List, Text, Exec, ok, pure, lift, ◌>>=◌, ◌>>◌,
  if◌then◌else◌,
}
use llm_semantic_caching_lay.Prelude.Int.{ℤ}
use llm_semantic_caching_lay.Float.{Float}
use llm_semantic_caching_lay.Models.Json.{Json, Fields}
use llm_semantic_caching_lay.Models.Entry.{CacheEntry, ScoredEntry}
use llm_semantic_caching_lay.Embeddings.{EmbeddingService}
use llm_semantic_caching_lay.Cache.Namespace.{RequestSignature, namespace, system_prompt_hash}
use llm_semantic_caching_lay.Cache.VectorStore.{VectorStore, Clock}

pub data CacheStatus : Type 0 where
  hit miss : CacheStatus

pub record CacheLookup (F : Type 0) : Type 0 where
  pub status : CacheStatus
  pub score : F
  pub latency_ms : F
  pub match : Option (ScoredEntry F)
  pub near_miss : Bool

unfoldable pub is_hit : {F : Type 0} → CacheLookup F → Bool
is_hit l = elim l.status [ hit ↦ true | miss ↦ false ]

-- The object's settings.
pub record SemanticCache (F : Type 0) : Type 0 where
  pub threshold : F
  pub near_miss_window : F
  pub top_k : ℕ

-- The readings of `perf_counter` and of the search.
pub record LookupClock (F : Type 0) : Type 0 where
  pub started : F
  pub searched : Clock F
  pub finished : F

-- The defaults that a new entry takes from `uuid4` and the clock.
pub record Fresh (F : Type 0) : Type 0 where
  pub id : Text
  pub created_at : F

-- The arguments of `store_response` behind the signature, with their defaults.
pub record Storing (F : Type 0) : Type 0 where
  pub prompt : Text
  pub response : Json F
  pub ttl_seconds : ℤ
  pub tags : List Text
  pub metadata : Fields F
  pub prompt_tokens : ℤ
  pub completion_tokens : ℤ

module _ {F S : Type 0} ⦃f : Float F⦄ (store : VectorStore F S) (embeddings : EmbeddingService F)
    (hexdigest : Text → Text) (cache : SemanticCache F) where
  unfoldable pub effective : Option F → F
  effective none = cache.threshold
  effective (some threshold) = threshold

  unfoldable pub in_window : F → F → Bool
  in_window threshold score =
      f.le (f.sub threshold cache.near_miss_window) score && f.lt score threshold

  -- `lookup` from the comparison on: the status, and whether it was a near miss.
  unfoldable pub judge : F → Option (ScoredEntry F) → Exec S (CacheStatus × Bool)
  unfolding in_window
  judge threshold none s = (ok (miss, false), s)
  judge threshold (some best) s =
      if f.le threshold best.score
      then (do store.increment_hit best.entry.id; pure (hit, false)) s
      else (ok (miss, in_window threshold best.score), s)

  abbrev pub best_score : Option (ScoredEntry F) → F
  best_score none = f.ratio 0 1
  best_score (some best) = best.score

  unfoldable pub lookup :
      LookupClock F → RequestSignature F → Text → Option F → Exec S (CacheLookup F)
  unfolding effective
  lookup clock signature prompt threshold = do
    embedding ← lift (embeddings.embed prompt)
    matches ←
        store.search clock.searched (namespace hexdigest signature) embedding.vector cache.top_k
    outcome ← judge (effective threshold) (head? matches)
    pure (record {
      status = outcome.0;
      score = best_score (head? matches);
      latency_ms = f.mul (f.sub clock.finished clock.started) (f.ratio 1000 1);
      match = head? matches;
      near_miss = outcome.1;
    })

  unfoldable pub entry_of : Fresh F → RequestSignature F → Storing F → List F → CacheEntry F
  entry_of fresh signature call embedding = record {
    id = fresh.id;
    namespace = namespace hexdigest signature;
    prompt = call.prompt;
    embedding = embedding;
    response = call.response;
    model = signature.model;
    provider = signature.provider;
    system_prompt_hash = system_prompt_hash hexdigest signature;
    temperature = signature.temperature;
    max_tokens = signature.max_tokens;
    created_at = fresh.created_at;
    ttl_seconds = call.ttl_seconds;
    hit_count = 0;
    prompt_tokens = call.prompt_tokens;
    completion_tokens = call.completion_tokens;
    tags = call.tags;
    metadata = call.metadata;
  }

  unfoldable pub store_response : Fresh F → RequestSignature F → Storing F → Exec S (CacheEntry F)
  unfolding entry_of
  store_response fresh signature call = do
    embedding ← lift (embeddings.embed call.prompt)
    let entry = entry_of fresh signature call embedding.vector
    store.upsert entry
    pure entry
