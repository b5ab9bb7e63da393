-- ===== src/Api/Cache.antt =====
-- app/api/cache.py: the routes that invalidate entries, over any vector store.
pub mod Purging
use llm_semantic_caching_lay.Prelude.{
  ℕ, Option, none, some, List, [], Text, codes, Exec, Result, ok, raise, pure, ◌>>=◌,
}
use llm_semantic_caching_lay.Prelude.Int.{pos}
use llm_semantic_caching_lay.Models.Json.{Json, int, str, obj, Fields, empty, field}
use llm_semantic_caching_lay.Cache.VectorStore.{VectorStore}

-- `{"invalidated": removed, "scope": scope, ...}`.
unfoldable pub invalidated : {F : Type 0} → ℕ → (scope : Text) → Fields F → Json F
invalidated removed scope rest =
    obj (field (codes "invalidated") (int (pos removed)) (field (codes "scope") (str scope) rest))

module _ {F S : Type 0} (store : VectorStore F S) where
  unfoldable pub invalidate_model : Text → Exec S (Json F)
  unfolding invalidated
  invalidate_model model = do
    removed ← store.delete (some model) none none
    pure (invalidated removed (codes "model") (field (codes "model") (str model) empty))

  unfoldable pub invalidate_system_prompt : Text → Exec S (Json F)
  unfolding invalidated
  invalidate_system_prompt prompt_hash = do
    removed ← store.delete none (some prompt_hash) none
    pure
        (invalidated removed (codes "system_prompt") (field (codes "hash") (str prompt_hash) empty))

  unfoldable pub invalidate_tag : Text → Exec S (Json F)
  unfolding invalidated
  invalidate_tag tag = do
    removed ← store.delete none none (some tag)
    pure (invalidated removed (codes "tag") (field (codes "tag") (str tag) empty))

  unfoldable pub invalidate_all : Exec S (Json F)
  unfolding invalidated
  invalidate_all = do removed ← store.clear; pure (invalidated removed (codes "all") empty)
