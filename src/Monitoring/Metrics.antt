-- ===== src/Monitoring/Metrics.antt =====
-- app/monitoring/metrics.py. A counter of `prometheus_client` is its value for each labels, a gauge its
-- last value, and a histogram what it observed, the last first.
pub mod Lookups
use llm_semantic_caching_lay.Prelude.{
  ℕ, suc, ◌+◌, ◌&&◌, ◌==◌, Bool, Option, none, some, List, [], ◌∷◌, Text, codes, text_eq,
  if◌then◌else◌,
}
use llm_semantic_caching_lay.Prelude.Dict
use llm_semantic_caching_lay.Prelude.Dict.{Dict}
use llm_semantic_caching_lay.Prelude.Int.{ℤ, pos, ◌+ℤ◌}
use llm_semantic_caching_lay.Float.{Float}

pub record CacheMetrics (F : Type 0) : Type 0 where
  pub cache_hits : Text → Text → ℕ
  pub cache_misses : Text → Text → ℕ
  pub hit_rate : F
  pub lookup_latency : List F
  pub similarity : List F
  pub cost_saved : F
  pub tokens_saved : ℤ
  pub requests_by_provider : Text → ℕ
  pub requests_by_model : Text → ℕ
  pub provider_latency : List (Text × F)
  pub cache_size : ℕ
  pub evictions : ℕ
  pub validation_accuracy : F
  pub semantic_drift_rate : F
  pub false_hit_rate : F
  -- `self._hits` and `self._total`
  pub hits : ℕ
  pub total : ℕ

-- `counter.labels(...).inc()`.
abbrev pub inc : (Text → ℕ) → Text → Text → ℕ
inc counter label l = if text_eq label l then suc (counter l) else counter l

abbrev pub inc_two : (Text → Text → ℕ) → Text → Text → Text → Text → ℕ
inc_two counter provider model p m =
    if text_eq provider p && text_eq model m then suc (counter p m) else counter p m

module _ {F : Type 0} ⦃f : Float F⦄ where
  abbrev pub init : CacheMetrics F
  init = record {
    cache_hits = λ p m. 0;
    cache_misses = λ p m. 0;
    hit_rate = f.ratio 0 1;
    lookup_latency = [];
    similarity = [];
    cost_saved = f.ratio 0 1;
    tokens_saved = pos 0;
    requests_by_provider = λ p. 0;
    requests_by_model = λ m. 0;
    provider_latency = [];
    cache_size = 0;
    evictions = 0;
    validation_accuracy = f.ratio 0 1;
    semantic_drift_rate = f.ratio 0 1;
    false_hit_rate = f.ratio 0 1;
    hits = 0;
    total = 0;
  }

  -- `self._hits / self._total if self._total else 0.0`.
  unfoldable pub rate_of : ℕ → ℕ → F
  rate_of hits total =
      if total == 0 then f.ratio 0 1 else f.div (f.of_int (pos hits)) (f.of_int (pos total))

  -- `max(0.0, similarity)` returns the first argument unless the second is greater.
  unfoldable pub record_lookup :
      (status provider model : Text) (similarity latency_ms : F) → CacheMetrics F → CacheMetrics F
  unfolding rate_of
  record_lookup status provider model similarity latency_ms c =
      let is_hit = text_eq status (codes "HIT") in
      let hits = if is_hit then c.hits + 1 else c.hits in
      record c {
        requests_by_provider = inc c.requests_by_provider provider;
        requests_by_model = inc c.requests_by_model model;
        lookup_latency = latency_ms ∷ c.lookup_latency;
        similarity =
            (if f.lt (f.ratio 0 1) similarity then similarity else f.ratio 0 1) ∷ c.similarity;
        total = c.total + 1;
        cache_hits = if is_hit then inc_two c.cache_hits provider model else c.cache_hits;
        hits = hits;
        cache_misses = if is_hit then c.cache_misses else inc_two c.cache_misses provider model;
        hit_rate = rate_of hits (c.total + 1);
      }

  -- The prices of a model, for a thousand tokens in and out.
  abbrev pub prices : Dict (F × F) → Text → F × F
  prices pricing model = or_fallback (Dict.get pricing model)
    where
      or_fallback : Option (F × F) → F × F
      or_fallback none = (f.ratio 5 10000, f.ratio 15 10000)
      or_fallback (some p) = p

  unfoldable pub record_savings :
      Dict (F × F) → Text → (prompt_tokens completion_tokens : ℤ) → CacheMetrics F → CacheMetrics F
  record_savings pricing model prompt_tokens completion_tokens c =
      let price = prices pricing model in
      record c {
        cost_saved = f.add c.cost_saved (
            f.add (f.mul (f.div (f.of_int prompt_tokens) (f.ratio 1000 1)) price.0)
              (f.mul (f.div (f.of_int completion_tokens) (f.ratio 1000 1)) price.1));
        tokens_saved = c.tokens_saved +ℤ (prompt_tokens +ℤ completion_tokens);
      }

  unfoldable pub record_provider_latency : Text → F → CacheMetrics F → CacheMetrics F
  record_provider_latency provider latency_ms c = record c {
    provider_latency = (provider, latency_ms) ∷ c.provider_latency;
  }

  unfoldable pub record_eviction : ℕ → CacheMetrics F → CacheMetrics F
  record_eviction count c = record c { evictions = c.evictions + count }

  unfoldable pub set_cache_size : ℕ → CacheMetrics F → CacheMetrics F
  set_cache_size size c = record c { cache_size = size }

  unfoldable pub record_validation :
      (accuracy drift_rate false_hit_rate : F) → CacheMetrics F → CacheMetrics F
  record_validation accuracy drift_rate false_hit_rate c = record c {
    validation_accuracy = accuracy;
    semantic_drift_rate = drift_rate;
    false_hit_rate = false_hit_rate;
  }
