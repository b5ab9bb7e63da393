-- ===== src/Tests/Routing.antt =====
-- Requests through the middleware and the routes.
use mathlib.Core.List.{Mem}
use llm_semantic_caching_lay.Prelude.{
  ℕ, suc, true, false, ◌≡◌, refl, none, Exec, [], Text, codes, ok, raise, provider_error,
}
use llm_semantic_caching_lay.Prelude.Int.{ℤ, pos, ◌-ℤ◌, ◌*ℤ◌}
use llm_semantic_caching_lay.Float.Decimals.{decimals}
use llm_semantic_caching_lay.Models.Json.{Json, str, null, field, empty}
use llm_semantic_caching_lay.Cache.MemoryStore.{
  InMemoryVectorStore, in_memory, search, live_entries, live_of, search_live, init,
}
use llm_semantic_caching_lay.Cache.MemoryStore.Histories.{history-IsValid}
use llm_semantic_caching_lay.Cache.SemanticCache.{
  CacheLookup, CacheStatus, is_hit, lookup, judge, effective,
}
use llm_semantic_caching_lay.Proxy.Service.{Completer, World}
use llm_semantic_caching_lay.Policies.Threshold.{ThresholdCategory}
use llm_semantic_caching_lay.Core.Http.{Reply}
use llm_semantic_caching_lay.Core.Correlation.Tagging.{handle, Handled, handle-Handled}
use llm_semantic_caching_lay.Api.Chat.Errors.{
  responding, IsErrorReply, lookup_of, upstream_error-reply,
}
use llm_semantic_caching_lay.Api.Cache.{invalidate_model, invalidate_system_prompt, invalidate_tag}
use llm_semantic_caching_lay.Api.Cache.Purging.{Invalidates, invalidate-Invalidates}
use llm_semantic_caching_lay.Api.Analytics.{threshold_feedback}
use llm_semantic_caching_lay.Api.Analytics.Feedback.{Answered, threshold_feedback-Answered}
use llm_semantic_caching_lay.Api.Metrics.{scrape}
use llm_semantic_caching_lay.Api.Metrics.Scraping.{Scraped, scrape-Scraped}
use llm_semantic_caching_lay.Monitoring.Metrics
use llm_semantic_caching_lay.Tests.Arrays.{arrays}
use llm_semantic_caching_lay.Tests.Requests.{digest}
use llm_semantic_caching_lay.Tests.Searching.{service, store, calls}
use llm_semantic_caching_lay.Tests.Serving.{request, limiter, acme, one_policy}
use llm_semantic_caching_lay.Tests.Flow.{calls_counted, upstream, models, proxy, read_off}

-- An application that counts its calls.
abbrev counting : Text → Exec ℕ (Reply (Json ℤ))
counting id n = (ok (record { status = 200; headers = []; content = null }), suc n)

handle-Handled_example :
    Handled
      (λ v. v)
      (pos 0)
      (pos 1)
      acme
      (codes "drawn")
      (λ n. none)
      counting
      (codes "drawn")
      limiter
      0
      (handle
        (λ v. v)
        (pos 0)
        (pos 1)
        acme
        (codes "drawn")
        (λ n. none)
        counting
        (record { correlation_id = none; app = (limiter, 0) }))
handle-Handled_example =
    handle-Handled (λ v. v) (pos 0) (pos 1) acme (codes "drawn") (λ n. none) counting limiter 0 none

threshold_feedback-Answered_example :
    Answered
      (record { category = ThresholdCategory.general; false_hit = true })
      one_policy
      (threshold_feedback
        (record { category = ThresholdCategory.general; false_hit = true })
        one_policy)
threshold_feedback-Answered_example =
    threshold_feedback-Answered (record { category = ThresholdCategory.general; false_hit = true })
      one_policy

scrape-Scraped_example :
    Scraped arrays
      (λ m. codes "cache_size")
      calls
      Metrics.init
      (scrape (λ m. codes "cache_size") (in_memory arrays) (Metrics.init, store))
scrape-Scraped_example = scrape-Scraped arrays (λ m. codes "cache_size") calls Metrics.init

invalidate-Invalidates_example :
    Invalidates arrays store
      (history-IsValid calls)
      (codes "a")
      (invalidate_model (in_memory arrays) (codes "gpt-4o"))
      (codes "model")
      (field (codes "model") (str (codes "gpt-4o")) empty)
      (λ e. e.model ≡ codes "gpt-4o")
    × Invalidates arrays store
        (history-IsValid calls)
        (codes "a")
        (invalidate_system_prompt (in_memory arrays) (codes "gpt-4o"))
        (codes "system_prompt")
        (field (codes "hash") (str (codes "gpt-4o")) empty)
        (λ e. e.system_prompt_hash ≡ codes "gpt-4o")
    × Invalidates arrays store
        (history-IsValid calls)
        (codes "a")
        (invalidate_tag (in_memory arrays) (codes "gpt-4o"))
        (codes "tag")
        (field (codes "tag") (str (codes "gpt-4o")) empty)
        (λ e. Mem (codes "gpt-4o") e.tags)
invalidate-Invalidates_example =
    invalidate-Invalidates arrays store (history-IsValid calls) (codes "a") (codes "gpt-4o")

-- A provider that is overloaded, behind an empty cache.
abbrev overloaded : Completer ℤ
overloaded = record upstream {
  complete = λ r. raise (provider_error (codes "busy") 529 (codes "openai"));
}

abbrev cold : World ℤ (InMemoryVectorStore ℤ) ℕ
cold = record { store = init; metrics = 0; near_miss = none; scheduled = [] }

abbrev missed : CacheLookup ℤ
missed = record {
  status = CacheStatus.miss;
  score = pos 0;
  latency_ms = pos 3000;
  match = none;
  near_miss = false;
}

looked_missed :
    lookup_of
      (in_memory arrays)
      service
      digest
      calls_counted
      overloaded
      models
      proxy
      read_off
      (λ n. none)
      request
      init
    ≡ (ok missed, init)
unfolding in_memory lookup judge effective search live_entries live_of search_live ◌-ℤ◌ ◌*ℤ◌
looked_missed = refl

upstream_error-reply_example :
    IsErrorReply
      (in_memory arrays)
      service
      digest
      calls_counted
      overloaded
      models
      proxy
      read_off
      (λ n. none)
      request
      (codes "busy")
      529
      (codes "openai")
      (responding
        (in_memory arrays)
        service
        digest
        calls_counted
        overloaded
        models
        proxy
        read_off
        (λ n. none)
        request
        cold).0
    × ((responding
          (in_memory arrays)
          service
          digest
          calls_counted
          overloaded
          models
          proxy
          read_off
          (λ n. none)
          request
          cold).1.store
        ≡ init)
unfolding is_hit
upstream_error-reply_example =
    upstream_error-reply (in_memory arrays) service digest calls_counted overloaded models proxy
      read_off (λ n. none) request cold missed init (codes "busy") 529 (codes "openai") refl
      looked_missed refl refl
