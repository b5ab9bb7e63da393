-- ===== src/Proxy/Service/Expected.antt =====
-- What a completion over the in-memory store comes to, told by the entries that the store holds.
use llm_semantic_caching_lay.Prelude.{
  ◌≡◌, true, false, none, some, List, [], Text, Result, ok, raise, Error,
}
use llm_semantic_caching_lay.Prelude.Dict
use llm_semantic_caching_lay.Prelude.Int.{ℤ, pos, ltb_ℤ}
use llm_semantic_caching_lay.Float.{Float}
use llm_semantic_caching_lay.Models.Json.{Fields}
use llm_semantic_caching_lay.Models.Chat.{
  ChatCompletionRequest, ChatCompletionResponse, system_prompt, latest_user_prompt,
}
use llm_semantic_caching_lay.Models.Entry.{CacheEntry, ScoredEntry}
use llm_semantic_caching_lay.Embeddings.{EmbeddingService, EmbeddingResult}
use llm_semantic_caching_lay.Cache.Namespace.{RequestSignature, namespace, system_prompt_hash}
use llm_semantic_caching_lay.Cache.Numpy.{Numpy}
use llm_semantic_caching_lay.Cache.MemoryStore.{
  InMemoryVectorStore, in_memory, live_entries, increment_hit,
}
use llm_semantic_caching_lay.Cache.SemanticCache.{CacheStatus, hit, miss}
use llm_semantic_caching_lay.Cache.SemanticCache.Best.{IsBest}
use llm_semantic_caching_lay.Proxy.Service.{
  Completer, MetricsSink, Serializer, ProxyService, World, Readings, ProxyResult, complete,
}

module _ {F M : Type 0} ⦃f : Float F⦄ (np : Numpy F) (embeddings : EmbeddingService F)
    (hexdigest : Text → Text) (metrics : MetricsSink F M) (completer : Completer F)
    (models : Serializer F) (service : ProxyService F) (readings : Readings F) (tenant : Text)
    (request : ChatCompletionRequest F) (embedding : EmbeddingResult F)
    (w : World F (InMemoryVectorStore F) M) where
  abbrev pub signature : RequestSignature F
  signature = record {
    model = request.model;
    provider = completer.resolve_provider request;
    system_prompt = system_prompt request;
    temperature = request.temperature;
    max_tokens = request.max_tokens;
    tenant = tenant;
  }

  -- The entries that the request may be answered from.
  abbrev pub usable : List (CacheEntry F)
  usable = live_entries w.store readings.lookup.searched (namespace hexdigest signature)

  -- The threshold of the policy, and the cache's where there is no policy or it gives none.
  abbrev pub limit : F
  limit = elim service.threshold_policy [
    | none ↦ service.cache.threshold
    | some policy ↦ elim (policy request) [ none ↦ service.cache.threshold | some t ↦ t ]
  ]

  -- The time to live and the tags that the policy gives, or the defaults.
  abbrev pub decided : ChatCompletionResponse F → ℤ × List Text
  decided response = elim service.ttl_policy [
    | some policy ↦ policy request response
    | none ↦ (service.default_ttl, elim request.cache_tags [ none ↦ [] | some tags ↦ tags ])
  ]

  abbrev pub answered : CacheStatus → F → ChatCompletionResponse F → ProxyResult F
  answered status score response = record {
    response = response;
    cache_status = status;
    similarity_score = score;
    cache_latency_ms =
        f.mul (f.sub readings.lookup.finished readings.lookup.started) (f.ratio 1000 1);
    provider = completer.resolve_provider request;
  }

  -- The entry for a response.
  abbrev pub entry_for : ChatCompletionResponse F → CacheEntry F
  entry_for response = record {
    id = readings.fresh.id;
    namespace = namespace hexdigest signature;
    prompt = latest_user_prompt request;
    embedding = embedding.vector;
    response = models.model_dump response;
    model = request.model;
    provider = completer.resolve_provider request;
    system_prompt_hash = system_prompt_hash hexdigest signature;
    temperature = request.temperature;
    max_tokens = request.max_tokens;
    created_at = readings.fresh.created_at;
    ttl_seconds = (decided response).0;
    hit_count = 0;
    prompt_tokens = response.usage.prompt_tokens;
    completion_tokens = response.usage.completion_tokens;
    tags = (decided response).1;
    metadata = Fields.empty;
  }

  -- No usable entry reaches the threshold; the score that is reported is the best, or 0 of none.
  pub data Unmatched (score : F) : Type 0 where
    none_usable : usable ≡ [] → score ≡ f.ratio 0 1 → Unmatched score
    below :
        (r : ScoredEntry F)
        → IsBest np embedding.vector usable r
        → f.le limit r.score ≡ false
        → score ≡ r.score
        → Unmatched score

  -- What a completion comes to: its answer, and the store that it leaves.
  pub data Cached (t : Result (ProxyResult F) × World F (InMemoryVectorStore F) M) : Type 0 where
    from_cache :
        (r : ScoredEntry F) (response : ChatCompletionResponse F)
        → IsBest np embedding.vector usable r
        → f.le limit r.score ≡ true
        → models.model_validate r.entry.response ≡ ok response
        → t.0 ≡ ok (answered hit r.score response)
        → t.1.store ≡ (increment_hit r.entry.id w.store).1
        → Cached t
    unreadable :
        (r : ScoredEntry F) (e : Error)
        → IsBest np embedding.vector usable r
        → f.le limit r.score ≡ true
        → models.model_validate r.entry.response ≡ raise e
        → t.0 ≡ raise e
        → t.1.store ≡ (increment_hit r.entry.id w.store).1
        → Cached t
    upstream_failed :
        (score : F) (e : Error)
        → Unmatched score
        → completer.complete request ≡ raise e
        → t.0 ≡ raise e
        → t.1.store ≡ w.store
        → Cached t
    kept :
        (score : F) (response : ChatCompletionResponse F)
        → Unmatched score
        → completer.complete request ≡ ok response
        → ltb_ℤ (pos 0) (decided response).0 ≡ true
        → t.0 ≡ ok (answered miss score response)
        → t.1.store
          ≡ record { entries = Dict.put w.store.entries readings.fresh.id (entry_for response) }
        → Cached t
    not_kept :
        (score : F) (response : ChatCompletionResponse F)
        → Unmatched score
        → completer.complete request ≡ ok response
        → ltb_ℤ (pos 0) (decided response).0 ≡ false
        → t.0 ≡ ok (answered miss score response)
        → t.1.store ≡ w.store
        → Cached t

  abbrev pub completing : Result (ProxyResult F) × World F (InMemoryVectorStore F) M
  completing =
      complete (in_memory np) embeddings hexdigest metrics completer models service readings tenant
        request w
