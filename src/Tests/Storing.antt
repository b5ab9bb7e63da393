-- ===== src/Tests/Storing.antt =====
-- A Redis server that keeps hashes, and tags.
use mathlib.Core.List.{flat_map}
use llm_semantic_caching_lay.Prelude.{
  ◌≡◌, ◌≢◌, ◌⊎◌, refl, inl, inr, Bool-cases, true, none, some, Option, [], Text, codes, text_eq,
  text_eq_iff, text_eq_refl, ok, raise, failure, arith, if◌then◌else◌,
}
use llm_semantic_caching_lay.Prelude.Int.{ℤ, pos}
use llm_semantic_caching_lay.Float.Decimals.{decimals}
use llm_semantic_caching_lay.Models.Entry.{CacheEntry}
use llm_semantic_caching_lay.Cache.RedisStore.{
  Redis, Codec, RedisVectorStore, special, escape_tag, upsert, get,
}
use llm_semantic_caching_lay.Cache.RedisStore.Escaping.{mark, unescape, unescape-escape_tag}
use llm_semantic_caching_lay.Cache.RedisStore.Entries.{written, IsHashes, after, get-upsert}
use llm_semantic_caching_lay.Tests.Searching.{entry, query}

unescape-escape_tag_example :
    (escape_tag (codes "gpt-4.1 mini") ≡ flat_map (mark special) (codes "gpt-4.1 mini"))
    × (unescape (escape_tag (codes "gpt-4.1 mini")) ≡ codes "gpt-4.1 mini")
unescape-escape_tag_example = unescape-escape_tag (codes "gpt-4.1 mini") (omega arith)

-- The text of each field of each hash.
abbrev Hashes : Type 0
Hashes = Text → Text → Option Text

server : Redis ℤ Hashes
unfolding written
server = record {
  hset = λ k fields s. (ok tt, λ j n. if text_eq j k then written fields n (s j n) else s j n);
  hget = λ k n s. (ok (s k n), s);
  expire = λ k t s. (ok tt, s);
  delete = λ ks s. (ok tt, s);
  search = λ index q s. (ok [], s);
  info = λ index s. (raise (failure (codes "Unknown index name")), s);
  create_index = λ index prefix n s. (ok tt, s);
}

other_hash : (j k : Text) → j ≢ k → text_eq j k ≡ true → ⊥
other_hash j k other same = other ((text_eq_iff j k).0 same)

server-IsHashes : IsHashes server (λ s. s)
unfolding server
server-IsHashes = record {
  hget_lem = λ s k n. refl;
  hset_lem = λ s k fields. refl;
  read_same = λ s k n fields. rw (text_eq_refl k) refl;
  read_other = λ s k j n fields other. elim (Bool-cases (text_eq j k)) [
    | inl same ↦ absurd (other_hash j k other same)
    | inr differs ↦ rw differs refl
  ];
  expire_lem = λ s k t. refl;
  read_expire = λ s k j n t h. refl;
}

abbrev kept : CacheEntry ℤ
kept = entry (codes "a") query

abbrev codec : Codec ℤ
codec = record { dump = λ e. ok (codes "{}"); load = λ bytes. ok kept; float32 = λ x. x }

abbrev settings : RedisVectorStore
settings = record { index = codes "semantic_cache"; dimensions = pos 2 }

abbrev empty : Hashes
empty = λ k n. none

get-upsert_example :
    (upsert server codec settings kept empty
      ≡ (ok tt, after server codec settings (λ s. s) server-IsHashes kept (codes "{}") refl empty))
    × (get server codec settings
          (codes "a")
          (after server codec settings (λ s. s) server-IsHashes kept (codes "{}") refl empty)
        ≡ (
          ok (some kept),
          after server codec settings (λ s. s) server-IsHashes kept (codes "{}") refl empty,
        ))
    × ((id : Text)
        → (id ≡ codes "a")
          ⊎ (get server codec settings id
                (after server codec settings (λ s. s) server-IsHashes kept (codes "{}") refl empty)
              ≡ (
                (get server codec settings id empty).0,
                after server codec settings (λ s. s) server-IsHashes kept (codes "{}") refl empty,
              )))
get-upsert_example =
    get-upsert server codec settings (λ s. s) server-IsHashes kept (codes "{}") refl empty refl
