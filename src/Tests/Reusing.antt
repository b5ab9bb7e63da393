-- ===== src/Tests/Reusing.antt =====
-- A response stored beside others, and looked up again.
use llm_semantic_caching_lay.Prelude.{◌≡◌, refl, true, none, [], codes, ok, arith}
use llm_semantic_caching_lay.Prelude.Int.{ℤ, pos, ◌+ℤ◌, ◌-ℤ◌, ◌*ℤ◌}
use llm_semantic_caching_lay.Float.Decimals.{decimals, decimals-IsOrdered}
use llm_semantic_caching_lay.Models.Json.{null, Fields}
use llm_semantic_caching_lay.Models.Entry.{is_expired}
use llm_semantic_caching_lay.Embeddings.{EmbeddingResult}
use llm_semantic_caching_lay.Cache.MemoryStore.{InMemoryVectorStore}
use llm_semantic_caching_lay.Cache.Similarity.{or_one}
use llm_semantic_caching_lay.Cache.SemanticCache.{
  CacheLookup, is_hit, Fresh, Storing, entry_of, effective,
}
use llm_semantic_caching_lay.Cache.SemanticCache.Hits.{looked_up}
use llm_semantic_caching_lay.Cache.SemanticCache.Reuse.{kept, stored, lookup-store_response}
use llm_semantic_caching_lay.Tests.Arrays.{arrays, arrays-IsNumpy}
use llm_semantic_caching_lay.Tests.Requests.{digest}
use llm_semantic_caching_lay.Tests.Searching.{
  query, asked, service, settings, readings, shared, shared_fits,
}

abbrev embedded : EmbeddingResult ℤ
embedded = record { vector = query; model = codes "fixed"; dimensions = 2; tokens = pos 1 }

abbrev pub fresh : Fresh ℤ
fresh = record { id = codes "c"; created_at = pos 1500000 }

abbrev pub call : Storing ℤ
call = record {
  prompt = codes "hi";
  response = null;
  ttl_seconds = pos 3600;
  tags = [];
  metadata = Fields.empty;
  prompt_tokens = pos 1;
  completion_tokens = pos 1;
}

lookup-store_response_example :
    ((stored arrays arrays-IsNumpy decimals-IsOrdered service digest settings asked embedded fresh
        call shared).0
      ≡ ok (
          kept arrays arrays-IsNumpy decimals-IsOrdered service digest settings asked embedded fresh
            call shared))
    × ((l : CacheLookup ℤ) × (s' : InMemoryVectorStore ℤ) × (looked_up arrays service digest
            settings readings asked
            (codes "hi")
            none
            (stored arrays arrays-IsNumpy decimals-IsOrdered service digest settings asked embedded
              fresh call shared).1
          ≡ (ok l, s'))
        × (is_hit l ≡ true))
unfolding is_expired entry_of effective or_one ◌+ℤ◌ ◌-ℤ◌ ◌*ℤ◌
lookup-store_response_example =
    lookup-store_response arrays arrays-IsNumpy decimals-IsOrdered service digest settings asked
      embedded fresh call shared readings none refl (omega arith) (omega arith) shared_fits refl
      refl
