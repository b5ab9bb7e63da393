-- ===== src/Core/RateLimit.antt =====
-- app/core/middleware.py: the token bucket and the rate limiter. The readings of the monotonic
-- clock are arguments. A response of the application behind the limiter is `passed`.
pub mod Admission
use llm_semantic_caching_lay.Prelude.{
  ℕ, Bool, true, false, Option, none, some, List, [], ◌∷◌, ◌++◌, any, Text, codes, text_eq, truthy,
  if◌then◌else◌,
}
use llm_semantic_caching_lay.Prelude.Int.{ℤ}
use llm_semantic_caching_lay.Prelude.Dict
use llm_semantic_caching_lay.Prelude.Dict.{Dict}
use llm_semantic_caching_lay.Float.{Float}

pub record TokenBucket (F : Type 0) : Type 0 where
  pub capacity : F
  pub tokens : F
  pub refill_per_sec : F
  pub updated : F

-- What the limiter reads of a request: the path, the tenant header, and the client's host.
pub record Request : Type 0 where
  pub path : Text
  pub tenant_header : Option Text
  pub client_host : Option Text

-- Status 429 with `Retry-After: 1`, or what the application answers.
pub data Answer : Type 0 where
  rate_limited passed : Answer

pub record RateLimitMiddleware (F : Type 0) : Type 0 where
  pub rate : ℤ
  pub exempt : List Text
  pub buckets : Dict (TokenBucket F)

-- `request.client.host if request.client else "unknown"`.
abbrev pub client : Option Text → Text
client none = codes "unknown"
client (some host) = host

unfoldable pub client_key : Request → Text
client_key r = elim r.tenant_header [
  | none ↦ codes "ip:" ++ client r.client_host
  | some tenant ↦
      if truthy tenant then codes "tenant:" ++ tenant else codes "ip:" ++ client r.client_host
]

abbrev pub or_new : {F : Type 0} → Option (TokenBucket F) → TokenBucket F → TokenBucket F
or_new none b = b
or_new (some a) b = a

module _ {F : Type 0} ⦃f : Float F⦄ where
  unfoldable pub new_bucket : ℤ → F → TokenBucket F
  new_bucket rate now = record {
    capacity = f.of_int rate;
    tokens = f.of_int rate;
    refill_per_sec = f.of_int rate;
    updated = now;
  }

  -- `min(self.capacity, ...)`.
  unfoldable pub refilled : F → TokenBucket F → F
  refilled now b =
      let more = f.add b.tokens (f.mul (f.sub now b.updated) b.refill_per_sec) in
      if f.lt more b.capacity then more else b.capacity

  unfoldable pub allow : F → TokenBucket F → Bool × TokenBucket F
  unfolding refilled
  allow now b =
      let tokens = refilled now b in
      if f.le (f.ratio 1 1) tokens
      then (true, record b { tokens = f.sub tokens (f.ratio 1 1); updated = now })
      else (false, record b { tokens = tokens; updated = now })

  -- `created` is read when a bucket is made, `now` when it is asked.
  unfoldable pub dispatch :
      (created now : F) → Request → RateLimitMiddleware F → Answer × RateLimitMiddleware F
  unfolding new_bucket client_key
  dispatch created now r m =
      if any (text_eq r.path) m.exempt
      then (passed, m)
      else let key = client_key r in
        let bucket = or_new (Dict.get m.buckets key) (new_bucket m.rate created) in
        let asked = allow now bucket in
        (
          (if asked.0 then passed else rate_limited),
          record m { buckets = Dict.put m.buckets key asked.1 },
        )
