-- ===== src/Api/Cache/Purging.antt =====
-- What the invalidation routes leave of an in-memory store.
use mathlib.Core.List.{Mem}
use llm_semantic_caching_lay.Prelude.{
  ℕ, ◌+◌, ◌≡◌, refl, Option, none, some, length, Text, codes, Exec, ok,
}
use llm_semantic_caching_lay.Prelude.Dict
use llm_semantic_caching_lay.Float.{Float}
use llm_semantic_caching_lay.Models.Json.{Json, str, Fields, empty, field}
use llm_semantic_caching_lay.Models.Entry.{CacheEntry}
use llm_semantic_caching_lay.Cache.Numpy.{Numpy}
use llm_semantic_caching_lay.Cache.MemoryStore.{InMemoryVectorStore, in_memory}
use llm_semantic_caching_lay.Cache.MemoryStore.Selection.{IsSelected}
use llm_semantic_caching_lay.Cache.MemoryStore.Deletion.{
  IsValid, Fate, absent, deleted, kept, delete-Fate,
}
use llm_semantic_caching_lay.Api.Cache.{
  invalidated, invalidate_model, invalidate_system_prompt, invalidate_tag,
}

-- What becomes of the entry under a key: it goes if it has the property, and stays if it does not.
pub data Purged {F : Type 0} (P : CacheEntry F → Type 0) (before after : Option (CacheEntry F))
    : Type 0 where
  nothing : before ≡ none → after ≡ none → Purged P before after
  gone : (e : CacheEntry F) → before ≡ some e → P e → after ≡ none → Purged P before after
  stays : (e : CacheEntry F) → before ≡ some e → ¬ P e → after ≡ some e → Purged P before after

Fate→Purged :
    {F : Type 0} (model hash tag : Option Text) (P : CacheEntry F → Type 0)
    (before after : Option (CacheEntry F))
    → ((e : CacheEntry F) → IsSelected model hash tag e → P e)
    → ((e : CacheEntry F) → P e → IsSelected model hash tag e)
    → Fate model hash tag before after
    → Purged P before after
Fate→Purged model hash tag P before after to from (absent b a) = nothing b a
Fate→Purged model hash tag P before after to from (deleted e b s a) = gone e b (to e s) a
Fate→Purged model hash tag P before after to from (kept e b s a) = stays e b (λ p. s (from e p)) a

module _ {F : Type 0} ⦃f : Float F⦄ (np : Numpy F) (s : InMemoryVectorStore F) (valid : IsValid s)
    (key : Text) where
  -- A route that answers with the number of the entries removed, which are those with a property.
  pub record Invalidates (route : Exec (InMemoryVectorStore F) (Json F)) (scope : Text)
      (rest : Fields F) (P : CacheEntry F → Type 0) : Type 0 where
    pub removed : ℕ
    pub after : InMemoryVectorStore F
    pub route_lem : route s ≡ (ok (invalidated removed scope rest), after)
    pub count : removed + length after.entries ≡ length s.entries
    pub fate : Purged P (Dict.get s.entries key) (Dict.get after.entries key)

  -- Each of the routes for a model, a system-prompt hash and a tag answers, over a valid in-memory
  -- store, with the number of entries removed. Those are the entries of that model, with that hash,
  -- or with that tag among theirs; every other entry stays under its key.
  pub invalidate-Invalidates :
      (value : Text)
      → Invalidates
          (invalidate_model (in_memory np) value)
          (codes "model")
          (field (codes "model") (str value) empty)
          (λ e. e.model ≡ value)
        × Invalidates
            (invalidate_system_prompt (in_memory np) value)
            (codes "system_prompt")
            (field (codes "hash") (str value) empty)
            (λ e. e.system_prompt_hash ≡ value)
        × Invalidates
            (invalidate_tag (in_memory np) value)
            (codes "tag")
            (field (codes "tag") (str value) empty)
            (λ e. Mem value e.tags)
  unfolding invalidate_model invalidate_system_prompt invalidate_tag in_memory
  invalidate-Invalidates value =
      let (n, s1, e1, _, c1, f1) = delete-Fate (some value) none none s key valid in
      let (m, s2, e2, _, c2, f2) = delete-Fate none (some value) none s key valid in
      let (k, s3, e3, _, c3, f3) = delete-Fate none none (some value) s key valid in
      (
        record {
          removed = n;
          after = s1;
          route_lem = rw e1 refl;
          count = c1;
          fate =
              Fate→Purged (some value) none none _ _ _ (λ e t. t.of_model)
                (λ e p. record { asked = tt; of_model = p; of_hash = tt; of_tag = tt }) f1;
        },
        record {
          removed = m;
          after = s2;
          route_lem = rw e2 refl;
          count = c2;
          fate =
              Fate→Purged none (some value) none _ _ _ (λ e t. t.of_hash)
                (λ e p. record { asked = tt; of_model = tt; of_hash = p; of_tag = tt }) f2;
        },
        record {
          removed = k;
          after = s3;
          route_lem = rw e3 refl;
          count = c3;
          fate =
              Fate→Purged none none (some value) _ _ _ (λ e t. t.of_tag)
                (λ e p. record { asked = tt; of_model = tt; of_hash = tt; of_tag = p }) f3;
        },
      )
