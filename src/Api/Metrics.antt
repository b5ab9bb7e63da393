-- ===== src/Api/Metrics.antt =====
-- app/api/metrics.py: the scrape. `render` stands for prometheus_client's `generate_latest`.
pub mod Scraping
use llm_semantic_caching_lay.Prelude.{ℕ, Text, Exec, Result, ok, raise}
use llm_semantic_caching_lay.Float.{Float}
use llm_semantic_caching_lay.Cache.VectorStore.{VectorStore}
use llm_semantic_caching_lay.Monitoring.Metrics.{CacheMetrics, set_cache_size}
use llm_semantic_caching_lay.Core.Http.{Reply, plain}

module _ {F S : Type 0} ⦃f : Float F⦄ where
  -- `with contextlib.suppress(Exception): set_cache_size(await store.count())`.
  unfoldable pub settle : CacheMetrics F → Result ℕ × S → Result (Unit {0}) × (CacheMetrics F × S)
  unfolding set_cache_size
  settle m (ok n, after) = (ok tt, (set_cache_size n m, after))
  settle m (raise e, after) = (ok tt, (m, after))

  unfoldable pub refresh : VectorStore F S → Exec (CacheMetrics F × S) (Unit {0})
  unfolding settle
  refresh store (m, s) = settle m (store.count s)

  unfoldable pub scrape :
      (CacheMetrics F → Text) → VectorStore F S → Exec (CacheMetrics F × S) (Reply Text)
  unfolding refresh
  scrape render store t = let (_, after) = refresh store t in (ok (plain (render after.0)), after)
