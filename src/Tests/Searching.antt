-- ===== src/Tests/Searching.antt =====
-- A small store: searches, deletions, histories and lookups.
use llm_semantic_caching_lay.Prelude.{
  ℕ, ◌+◌, ◌≡◌, refl, none, some, List, [], ◌∷◌, length, Text, codes, text_eq, All, arith, ok,
}
use llm_semantic_caching_lay.Prelude.Dict
use llm_semantic_caching_lay.Prelude.Int.{ℤ, pos, ◌+ℤ◌, ◌-ℤ◌, ◌*ℤ◌}
use llm_semantic_caching_lay.Prelude.Sort.{sorted}
use llm_semantic_caching_lay.Float.Decimals.{decimals, decimals-IsOrdered}
use llm_semantic_caching_lay.Models.Json.{null, Fields}
use llm_semantic_caching_lay.Models.Entry.{CacheEntry, ScoredEntry, is_expired}
use llm_semantic_caching_lay.Embeddings.{EmbeddingService}
use llm_semantic_caching_lay.Cache.Numpy.{asarray, matmul, size, gather}
use llm_semantic_caching_lay.Cache.Namespace.{RequestSignature, namespace}
use llm_semantic_caching_lay.Cache.Similarity.{
  top_k_indices, cosine_similarity_matrix, denominators, quotients,
}
use llm_semantic_caching_lay.Cache.Similarity.TopK.{IsTopK, top_k_indices-IsTopK}
use llm_semantic_caching_lay.Cache.VectorStore.{Clock}
use llm_semantic_caching_lay.Cache.MemoryStore.{
  InMemoryVectorStore, upsert, get, delete, live_entries, increment_hit, search_live, scored_at,
  search,
}
use llm_semantic_caching_lay.Cache.MemoryStore.Search.{IsNearest, search-IsNearest}
use llm_semantic_caching_lay.Cache.MemoryStore.Live.{IsLive, live_of-All, search-IsLive}
use llm_semantic_caching_lay.Cache.MemoryStore.Deletion.{IsValid, Fate, delete-Fate}
use llm_semantic_caching_lay.Cache.MemoryStore.Histories.{
  Call, upserting, hitting, history, meaning, history-IsValid, get-history,
}
use llm_semantic_caching_lay.Cache.SemanticCache.{SemanticCache, LookupClock, CacheLookup}
use llm_semantic_caching_lay.Cache.SemanticCache.Hits.{IsAnswer, IsLeft, looked_up, lookup-IsAnswer}
use llm_semantic_caching_lay.Tests.Requests.{digest}
use llm_semantic_caching_lay.Tests.Arrays.{arrays, arrays-IsNumpy}

top_k_example :
    (r : List ℕ) × (top_k_indices arrays (pos 3 ∷ pos 9 ∷ pos 5 ∷ []) 2 ≡ ok r)
    × IsTopK (pos 3 ∷ pos 9 ∷ pos 5 ∷ []) 2 r
top_k_example =
    top_k_indices-IsTopK arrays (pos 3 ∷ pos 9 ∷ pos 5 ∷ []) arrays-IsNumpy 2 (omega arith)

top_two : top_k_indices arrays (pos 3 ∷ pos 9 ∷ pos 5 ∷ []) 2 ≡ ok (1 ∷ 2 ∷ [])
unfolding top_k_indices gather sorted
top_two = refl

-- Of a request for no results the slice `[-0:]` keeps everything.
top_zero : top_k_indices arrays (pos 3 ∷ pos 9 ∷ pos 5 ∷ []) 0 ≡ ok (1 ∷ 2 ∷ 0 ∷ [])
unfolding top_k_indices gather sorted
top_zero = refl

abbrev pub entry : Text → List ℤ → CacheEntry ℤ
entry id embedding = record {
  id = id;
  namespace = codes "ns";
  prompt = codes "hi";
  embedding = embedding;
  response = null;
  model = codes "gpt-4o";
  provider = codes "openai";
  system_prompt_hash = codes "no-system";
  temperature = pos 10000;
  max_tokens = none;
  created_at = pos 1000000;
  ttl_seconds = pos 3600;
  hit_count = 0;
  prompt_tokens = pos 1;
  completion_tokens = pos 2;
  tags = codes "ttl:long" ∷ [];
  metadata = Fields.empty;
}

abbrev pub calls : List (Call ℤ)
calls =
    hitting (codes "a")
    ∷ upserting (entry (codes "b") (pos 0 ∷ pos 10000 ∷ []))
    ∷ upserting (entry (codes "a") (pos 10000 ∷ pos 0 ∷ []))
    ∷ []

abbrev pub store : InMemoryVectorStore ℤ
store = history calls

abbrev pub clock : Clock ℤ
clock = record { now = pos 2000000; reread = pos 2000000 }

abbrev pub query : List ℤ
query = pos 10000 ∷ pos 0 ∷ []

abbrev pub asked : RequestSignature ℤ
asked = record {
  model = codes "gpt-4o";
  provider = codes "openai";
  system_prompt = none;
  temperature = pos 10000;
  max_tokens = none;
  tenant = codes "default";
}

abbrev pub service : EmbeddingService ℤ
service = record {
  embed =
      λ t. ok (record { vector = query; model = codes "fixed"; dimensions = 2; tokens = pos 1 });
}

abbrev pub settings : SemanticCache ℤ
settings = record { threshold = pos 9500; near_miss_window = pos 500; top_k = 5 }

abbrev pub readings : LookupClock ℤ
readings = record { started = pos 0; searched = clock; finished = pos 3 }

-- The store with its entries in the namespace of the request.
abbrev pub shared : InMemoryVectorStore ℤ
shared = history (
    upserting
      (record (entry (codes "b") (pos 0 ∷ pos 10000 ∷ [])) { namespace = namespace digest asked })
    ∷ upserting (record (entry (codes "a") query) { namespace = namespace digest asked })
    ∷ [])

fits : All (λ e. length e.embedding ≡ 2) (live_entries store clock (codes "ns"))
unfolding live_entries text_eq upsert increment_hit Dict.get Dict.put
fits = live_of-All (λ e. length e.embedding ≡ 2) clock (codes "ns") store.entries (omega arith)

pub shared_fits :
    All (λ e. length e.embedding ≡ 2) (live_entries shared clock (namespace digest asked))
unfolding live_entries text_eq upsert Dict.put
shared_fits =
    live_of-All (λ e. length e.embedding ≡ 2) clock (namespace digest asked) shared.entries
      (omega arith)

search-IsNearest_example :
    (found : List (ScoredEntry ℤ)) × (search arrays clock (codes "ns") query 2 store
      ≡ (ok found, store))
    × IsNearest arrays query 2 (live_entries store clock (codes "ns")) found
search-IsNearest_example =
    search-IsNearest arrays query arrays-IsNumpy clock (codes "ns") 2 store (omega arith)
      (omega arith) fits

delete-Fate_example :
    (n : ℕ) × (s' : InMemoryVectorStore ℤ) × (delete
        (some (codes "gpt-4o"))
        none
        (some (codes "ttl:long"))
        store
      ≡ (ok n, s'))
    × IsValid s'
    × (n + length s'.entries ≡ length store.entries)
    × Fate
        (some (codes "gpt-4o"))
        none
        (some (codes "ttl:long"))
        (Dict.get store.entries (codes "a"))
        (Dict.get s'.entries (codes "a"))
delete-Fate_example =
    delete-Fate (some (codes "gpt-4o")) none (some (codes "ttl:long")) store (codes "a")
      (history-IsValid calls)

history-IsValid_example : IsValid store
history-IsValid_example = history-IsValid calls

get-history_example : get (codes "a") store ≡ (ok (meaning calls (codes "a")), store)
get-history_example = get-history calls (codes "a")

lookup-IsAnswer_example :
    (l : CacheLookup ℤ) × (s' : InMemoryVectorStore ℤ) × (looked_up arrays service digest settings
        readings asked
        (codes "hi")
        none
        shared
      ≡ (ok l, s'))
    × IsAnswer arrays service digest settings readings asked
        (codes "hi")
        none
        shared
        arrays-IsNumpy
        decimals-IsOrdered
        (record { vector = query; model = codes "fixed"; dimensions = 2; tokens = pos 1 })
        refl
        l
    × IsLeft arrays service digest settings readings asked
        (codes "hi")
        none
        shared
        arrays-IsNumpy
        decimals-IsOrdered
        (record { vector = query; model = codes "fixed"; dimensions = 2; tokens = pos 1 })
        refl
        l
        s'
lookup-IsAnswer_example =
    lookup-IsAnswer arrays service digest settings readings asked (codes "hi") none shared
      arrays-IsNumpy decimals-IsOrdered _ refl (omega arith) (omega arith) shared_fits

two_found : search arrays clock (codes "ns") query 2 store ≡ (
  ok (
      record { entry = record (entry (codes "a") query) { hit_count = 1 }; score = pos 10000 }
      ∷ record { entry = entry (codes "b") (pos 0 ∷ pos 10000 ∷ []); score = pos 0 }
      ∷ []),
  store,
)
unfolding live_entries text_eq is_expired search search_live asarray cosine_similarity_matrix size
    matmul denominators quotients top_k_indices gather scored_at sorted upsert increment_hit ◌+ℤ◌
    ◌-ℤ◌ ◌*ℤ◌ Dict.get Dict.put
two_found = refl

search-IsLive_example :
    (store ≡ store)
    × All
        (λ (r : ScoredEntry ℤ). IsLive clock (codes "ns") store.entries r.entry)
        (record { entry = record (entry (codes "a") query) { hit_count = 1 }; score = pos 10000 }
          ∷ record { entry = entry (codes "b") (pos 0 ∷ pos 10000 ∷ []); score = pos 0 }
          ∷ [])
search-IsLive_example = search-IsLive arrays clock (codes "ns") query 2 store store _ two_found
