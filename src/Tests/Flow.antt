-- ===== src/Tests/Flow.antt =====
-- A completion, a stream and a sweep over thresholds.
use llm_semantic_caching_lay.Prelude.{
  ℕ, suc, ◌≤◌, ◌≡◌, refl, none, List, [], ◌∷◌, codes, ok, raise, failure, true, false, length, All,
  arith, text_eq,
}
use llm_semantic_caching_lay.Prelude.Int.{ℤ, pos, ◌+ℤ◌, ◌*ℤ◌}
use llm_semantic_caching_lay.Float.Decimals.{decimals, decimals-IsOrdered}
use llm_semantic_caching_lay.Models.Json.{null}
use llm_semantic_caching_lay.Cache.MemoryStore.{
  InMemoryVectorStore, in_memory, live_entries, upsert,
}
use llm_semantic_caching_lay.Cache.MemoryStore.Live.{live_of-All}
use llm_semantic_caching_lay.Embeddings.{EmbeddingResult}
use llm_semantic_caching_lay.Prelude.Dict
use llm_semantic_caching_lay.Cache.Similarity.{cosine_similarity}
use llm_semantic_caching_lay.Proxy.Service.{
  Completer, MetricsSink, Serializer, ProxyService, World, Readings,
}
use llm_semantic_caching_lay.Proxy.Service.Outcomes.{completing}
use llm_semantic_caching_lay.Proxy.Service.Expected
use llm_semantic_caching_lay.Proxy.Service.Expected.{Cached}
use llm_semantic_caching_lay.Proxy.Service.Caching.{complete-Cached}
use llm_semantic_caching_lay.Proxy.Service.Streams.{Streamed, body, miss_body-Streamed}
use llm_semantic_caching_lay.Proxy.Service.Agreement.{Agrees, streaming, stream-Agrees}
use llm_semantic_caching_lay.Analytics.Threshold.{
  ThresholdTestCase, ThresholdReport, similarities, evaluate,
}
use llm_semantic_caching_lay.Analytics.Threshold.Counts.{IsSweep, evaluate-IsSweep}
use llm_semantic_caching_lay.Analytics.Validation.{init}
use llm_semantic_caching_lay.Analytics.Validation.Rates.{
  run, outcomes, finished, drifted, sum, run-counts,
}
use llm_semantic_caching_lay.Analytics.Validation.Recording
use llm_semantic_caching_lay.Analytics.Validation.Recording.{UpToDate, replayed-UpToDate}
use llm_semantic_caching_lay.Monitoring.Metrics
use llm_semantic_caching_lay.Models.Chat.{ChatCompletionRequest, ChatCompletionResponse}
use llm_semantic_caching_lay.Monitoring.Metrics.Lookups.{
  Lookup, after_lookups, IsConsistent, lookups-IsConsistent,
}
use llm_semantic_caching_lay.Tests.Arrays.{arrays, arrays-IsNumpy}
use llm_semantic_caching_lay.Tests.Requests.{digest}
use llm_semantic_caching_lay.Tests.Searching.{service, settings, readings, shared, query, clock}
use llm_semantic_caching_lay.Tests.Serving.{loads, chunks, request, response}

-- A counter of the calls in place of the metrics.
abbrev pub calls_counted : MetricsSink ℤ ℕ
calls_counted = record {
  record_lookup = λ s p m x y n. suc n;
  record_provider_latency = λ p x n. suc n;
  record_savings = λ m a b n. suc n;
}

abbrev pub upstream : Completer ℤ
upstream = record {
  resolve_provider = λ r. codes "openai";
  complete = λ r. ok response;
  stream = λ r. (chunks, none);
}

abbrev pub models : Serializer ℤ
models = record {
  model_dump = λ r. null;
  model_validate = λ v. ok response;
  loads = loads;
  dumps = λ v. ok (codes "{}");
  fields = record {
    str_value = λ v. raise (failure (codes "ValidationError"));
    int_value = λ v. raise (failure (codes "ValidationError"));
    usage_value = λ d. raise (failure (codes "ValidationError"));
  };
}

abbrev pub proxy : ProxyService ℤ
proxy = record {
  cache = settings;
  default_ttl = pos 86400;
  ttl_policy = none;
  threshold_policy = none;
}

abbrev pub read_off : Readings ℤ
read_off = record {
  lookup = readings;
  near_miss_time = pos 1;
  sampled = true;
  provider_latency = pos 5;
  fresh = record { id = codes "c"; created_at = pos 2000000 };
  drawn_id = codes "chatcmpl-2";
  time = pos 200;
}

abbrev world : World ℤ (InMemoryVectorStore ℤ) ℕ
world = record { store = shared; metrics = 0; near_miss = none; scheduled = [] }

abbrev embedding : EmbeddingResult ℤ
embedding = record { vector = query; model = codes "fixed"; dimensions = 2; tokens = pos 1 }

usable_fit :
    All
      (λ e. length e.embedding ≡ 2)
      (Expected.usable arrays service digest calls_counted upstream models proxy read_off
        (codes "default")
        request
        embedding
        world)
unfolding live_entries text_eq upsert Dict.put
usable_fit = live_of-All (λ e. length e.embedding ≡ 2) clock _ shared.entries (omega arith)

complete-Cached_example :
    Cached arrays service digest calls_counted upstream models proxy read_off
      (codes "default")
      request
      embedding
      world
      (Expected.completing arrays service digest calls_counted upstream models proxy read_off
        (codes "default")
        request
        embedding
        world)
complete-Cached_example =
    complete-Cached arrays service digest calls_counted upstream models proxy read_off
      (codes "default") request embedding world refl arrays-IsNumpy decimals-IsOrdered (omega arith)
      (omega arith) usable_fit

miss_body-Streamed_example :
    Streamed
      (in_memory arrays)
      service
      digest
      calls_counted
      upstream
      models
      proxy
      read_off
      (codes "default")
      request
      shared
      (body
        (in_memory arrays)
        service
        digest
        calls_counted
        upstream
        models
        proxy
        read_off
        (codes "default")
        request
        shared)
miss_body-Streamed_example =
    miss_body-Streamed (in_memory arrays) service digest calls_counted upstream models proxy
      read_off (codes "default") request shared

stream-Agrees_example :
    Agrees
      (in_memory arrays)
      service
      digest
      calls_counted
      upstream
      models
      proxy
      read_off
      (codes "default")
      request
      world
      (streaming
        (in_memory arrays)
        service
        digest
        calls_counted
        upstream
        models
        proxy
        read_off
        (codes "default")
        request
        world)
      (completing
        (in_memory arrays)
        service
        digest
        calls_counted
        upstream
        models
        proxy
        read_off
        (codes "default")
        request
        world)
stream-Agrees_example =
    stream-Agrees (in_memory arrays) service digest calls_counted upstream models proxy read_off
      (codes "default") request world

abbrev cases : List ThresholdTestCase
cases =
    record { query = codes "a"; candidate = codes "b"; expected_match = true }
    ∷ record { query = codes "a"; candidate = codes "c"; expected_match = false }
    ∷ []

compared : similarities arrays service cases ≡ ok (pos 10000 ∷ pos 10000 ∷ [])
unfolding similarities cosine_similarity ◌+ℤ◌ ◌*ℤ◌
compared = refl

evaluate-IsSweep_example :
    (r : ThresholdReport ℤ) × (evaluate arrays service (pos 9500 ∷ pos 9000 ∷ []) cases ≡ ok r)
    × IsSweep (pos 9500 ∷ pos 9000 ∷ []) cases r
evaluate-IsSweep_example =
    evaluate-IsSweep arrays service (pos 9500 ∷ pos 9000 ∷ []) cases (pos 10000 ∷ pos 10000 ∷ [])
      compared

abbrev replayed : List (ChatCompletionRequest ℤ × ChatCompletionResponse ℤ)
replayed = (request, response) ∷ (request, response) ∷ []

run-counts_example :
    ((run arrays service upstream.complete replayed (init (pos 200) (pos 9000))).validations
      ≡ sum arrays service upstream.complete
          (finished arrays service upstream.complete)
          (outcomes arrays service upstream.complete replayed (init (pos 200) (pos 9000))))
    × ((run arrays service upstream.complete replayed (init (pos 200) (pos 9000))).drift
        ≡ sum arrays service upstream.complete
            (drifted arrays service upstream.complete)
            (outcomes arrays service upstream.complete replayed (init (pos 200) (pos 9000))))
    × ((run arrays service upstream.complete replayed (init (pos 200) (pos 9000))).false_hits
        ≡ sum arrays service upstream.complete
            (drifted arrays service upstream.complete)
            (outcomes arrays service upstream.complete replayed (init (pos 200) (pos 9000))))
    × ((run arrays service upstream.complete replayed (init (pos 200) (pos 9000))).drift
        ≤ (run arrays service upstream.complete replayed (init (pos 200) (pos 9000))).validations)
run-counts_example = run-counts arrays service upstream.complete (pos 200) (pos 9000) replayed

abbrev lookups : List (Lookup ℤ)
lookups =
    record {
      status = codes "HIT";
      provider = codes "openai";
      model = codes "gpt-4o";
      similarity = pos 9600;
      latency_ms = pos 3;
    }
    ∷ record {
      status = codes "MISS";
      provider = codes "openai";
      model = codes "gpt-4o";
      similarity = pos 9000;
      latency_ms = pos 4;
    }
    ∷ []

lookups-IsConsistent_example : IsConsistent lookups (after_lookups lookups)
lookups-IsConsistent_example = lookups-IsConsistent lookups

replayed-UpToDate_example : UpToDate arrays service upstream.complete (
    Recording.replayed arrays service upstream.complete replayed
      (init (pos 200) (pos 9000), Metrics.init))
replayed-UpToDate_example =
    replayed-UpToDate arrays service upstream.complete replayed (pos 200) (pos 9000) Metrics.init
