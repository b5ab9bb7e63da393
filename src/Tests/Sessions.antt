-- ===== src/Tests/Sessions.antt =====
-- A cache in use, with the embeddings for development.
use llm_semantic_caching_lay.Prelude.{
  ℕ, zero, suc, ◌≡◌, refl, ap, none, some, List, [], ◌∷◌, length, codes, ok, arith,
}
use llm_semantic_caching_lay.Prelude.Int.{ℤ, pos}
use llm_semantic_caching_lay.Float.Decimals.{decimals, decimals-IsOrdered}
use llm_semantic_caching_lay.Models.Entry.{CacheEntry}
use llm_semantic_caching_lay.Embeddings.{EmbeddingService}
use llm_semantic_caching_lay.Embeddings.Fake.{Hashing, fake}
use llm_semantic_caching_lay.Cache.MemoryStore.{InMemoryVectorStore, in_memory}
use llm_semantic_caching_lay.Cache.SemanticCache.{CacheLookup, store_response}
use llm_semantic_caching_lay.Cache.SemanticCache.Hits.{looked_up}
use llm_semantic_caching_lay.Cache.SemanticCache.Sessions.{
  Use, storing, looking, deleting, used, lookup-used,
}
use llm_semantic_caching_lay.Tests.Arrays.{arrays, arrays-IsNumpy}
use llm_semantic_caching_lay.Tests.Requests.{digest}
use llm_semantic_caching_lay.Tests.Searching.{asked, settings, readings}
use llm_semantic_caching_lay.Tests.Reusing.{fresh, call}

-- A generator that draws its seed.
abbrev drawn : (seed size : ℕ) → List ℤ
drawn seed zero = []
drawn seed (suc n) = pos seed ∷ drawn seed n

length-drawn : (seed size : ℕ) → length (drawn seed size) ≡ size
length-drawn seed zero = refl
length-drawn seed (suc n) = ap suc (length-drawn seed n)

abbrev hashing : Hashing
hashing = record { lower = λ t. t; sha256 = λ t. length t ∷ [] }

abbrev service : EmbeddingService ℤ
service = fake arrays hashing drawn (codes "fake-embed") 2

abbrev uses : List (Use ℤ)
uses =
    deleting none none (some (codes "other"))
    ∷ looking readings asked (codes "hi") none
    ∷ storing fresh asked call
    ∷ []

abbrev store : InMemoryVectorStore ℤ
store =
    used arrays arrays-IsNumpy decimals-IsOrdered hashing drawn (codes "fake-embed") 2 length-drawn
      digest settings uses

lookup-used_example :
    ((l : CacheLookup ℤ) × (s : InMemoryVectorStore ℤ) × (looked_up arrays service digest settings
          readings asked
          (codes "hello")
          none
          store
        ≡ (ok l, s)))
    × ((e : CacheEntry ℤ) × (s : InMemoryVectorStore ℤ) × (store_response
            (in_memory arrays)
            service
            digest
            settings
            fresh
            asked
            call
            store
          ≡ (ok e, s))
        × (length e.embedding ≡ 2))
lookup-used_example =
    lookup-used arrays arrays-IsNumpy decimals-IsOrdered hashing drawn (codes "fake-embed") 2
      length-drawn digest settings (omega arith) (omega arith) uses readings asked (codes "hello")
      none fresh call
