-- ===== src/Models/Entry.antt =====
-- app/models/cache.py: cache entries and search results. `response` is the dumped response.
use llm_semantic_caching_lay.Prelude.{ℕ, Bool, true, Option, none, some, List, Text, if◌then◌else◌}
use llm_semantic_caching_lay.Prelude.Int.{ℤ, pos, leb_ℤ}
use llm_semantic_caching_lay.Float.{Float}
use llm_semantic_caching_lay.Models.Json.{Json, Fields}

pub record CacheEntry (F : Type 0) : Type 0 where
  pub id : Text
  pub namespace : Text
  pub prompt : Text
  pub embedding : List F
  pub response : Json F
  pub model : Text
  pub provider : Text
  pub system_prompt_hash : Text
  pub temperature : F
  pub max_tokens : Option ℤ
  pub created_at : F
  pub ttl_seconds : ℤ
  pub hit_count : ℕ
  pub prompt_tokens : ℤ
  pub completion_tokens : ℤ
  pub tags : List Text
  pub metadata : Fields F

pub record ScoredEntry (F : Type 0) : Type 0 where
  pub entry : CacheEntry F
  pub score : F

module _ {F : Type 0} ⦃f : Float F⦄ where
  -- `now or time.time()`: a missing `now`, and also 0.0, reads the clock.
  unfoldable pub moment : Option F → F → F
  moment none clock = clock
  moment (some now) clock = if f.eq now (f.ratio 0 1) then clock else now

  unfoldable pub age_seconds : CacheEntry F → Option F → F → F
  unfolding moment
  age_seconds e now clock = f.sub (moment now clock) e.created_at

  unfoldable pub is_expired : CacheEntry F → Option F → F → Bool
  unfolding age_seconds
  is_expired e now clock =
      if leb_ℤ e.ttl_seconds (pos 0)
      then true
      else f.lt (f.of_int e.ttl_seconds) (age_seconds e now clock)
