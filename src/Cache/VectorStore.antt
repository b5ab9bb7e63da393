-- ===== src/Cache/VectorStore.antt =====
-- The interface of a vector store: the abstract class of app/cache/store.py.
use llm_semantic_caching_lay.Prelude.{ℕ, Option, List, Text, Exec}
use llm_semantic_caching_lay.Models.Entry.{CacheEntry, ScoredEntry}

-- What a call of `search` reads off the clock: `time.time()`, and the second reading that
-- `now or time.time()` makes where the first is 0.0.
pub record Clock (F : Type 0) : Type 0 where
  pub now : F
  pub reread : F

-- A store over the states `S`.
pub record VectorStore (F S : Type 0) : Type 0 where
  pub ensure_index : Exec S (Unit {0})
  pub upsert : CacheEntry F → Exec S (Unit {0})
  pub search : Clock F → Text → List F → ℕ → Exec S (List (ScoredEntry F))
  pub get : Text → Exec S (Option (CacheEntry F))
  pub increment_hit : Text → Exec S (Unit {0})
  -- by model, system-prompt hash and tag
  pub delete : Option Text → Option Text → Option Text → Exec S ℕ
  pub clear : Exec S ℕ
  pub count : Exec S ℕ
