-- ===== src/Core/Correlation.antt =====
-- app/core/middleware.py: `CorrelationIdMiddleware`, and what the rate limiter answers; and the
-- context variable of app/core/logging.py. A request's headers are a function on lower-case names;
-- what `uuid4` gives is an argument, and the access log is left out.
pub mod Tagging
use llm_semantic_caching_lay.Prelude.{
  ℕ, Option, none, some, List, [], ◌∷◌, Text, codes, truthy, Exec, Result, ok, raise, if◌then◌else◌,
}
use llm_semantic_caching_lay.Prelude.Dict
use llm_semantic_caching_lay.Prelude.Dict.{Dict}
use llm_semantic_caching_lay.Float.{Float}
use llm_semantic_caching_lay.Models.Json.{Json, str, obj, empty, field}
use llm_semantic_caching_lay.Core.Http.{Reply}
use llm_semantic_caching_lay.Core.RateLimit.{Request, RateLimitMiddleware, rate_limited, passed}
use llm_semantic_caching_lay.Core.RateLimit

-- The loop over the two header names: the first that is present decides, also if it is empty.
unfoldable pub first_present : List Text → (Text → Option Text) → Option Text
first_present [] header = none
first_present (name ∷ names) header =
    let rest = first_present names header in
    elim (header name) [ some value ↦ some value | none ↦ rest ]

-- `correlation_id or uuid.uuid4().hex`.
unfoldable pub correlation_id : (drawn : Text) → (Text → Option Text) → Text
unfolding first_present
correlation_id drawn header =
    elim (first_present (codes "x-correlation-id" ∷ codes "x-request-id" ∷ []) header) [
      | none ↦ drawn
      | some value ↦ if truthy value then value else drawn
    ]

-- The context variable, and the state of what is behind the middleware.
pub record Context (A : Type 0) : Type 0 where
  pub correlation_id : Option Text
  pub app : A

-- `_add_correlation_id`.
unfoldable pub add_correlation_id : {A : Type 0} → Context A → Dict Text → Dict Text
add_correlation_id context event_dict = elim context.correlation_id [
  | none ↦ event_dict
  | some cid ↦ Dict.put event_dict (codes "correlation_id") cid
]

-- After the call, whatever it comes to, the context is reset; a response gets the header.
unfoldable pub finish :
    {A C : Type 0} → (id : Text) → Result (Reply C) × Context A → Result (Reply C) × Context A
finish id (answered, after) = (
  elim answered [
    | raise e ↦ raise e
    | ok reply ↦
        ok (record reply { headers = Dict.put reply.headers (codes "X-Correlation-ID") id })
  ],
  record after { correlation_id = none },
)

unfoldable pub dispatch :
    {A C : Type 0}
    → (drawn : Text) → (Text → Option Text)
    → Exec (Context A) (Reply C)
    → Exec (Context A) (Reply C)
unfolding correlation_id finish
dispatch drawn header call_next c =
    let id = correlation_id drawn header in
    finish id (call_next (record c { correlation_id = some id }))

-- The response of the rate limiter.
unfoldable pub too_many : {F C : Type 0} → (Json F → C) → Reply C
too_many json = record {
  status = 429;
  headers = (codes "Retry-After", codes "1") ∷ [];
  content = json (
      obj (
        field (codes "error")
          (obj (
            field (codes "message") (str (codes "rate limit exceeded"))
              (field (codes "type") (str (codes "rate_limit_error")) empty)))
          empty));
}

-- The limiter with the application behind it; the readings of the clock are arguments.
unfoldable pub limit :
    {F A C : Type 0} ⦃f : Float F⦄
    → (Json F → C)
    → (created now : F) → Request
    → Exec A (Reply C)
    → Exec (RateLimitMiddleware F × A) (Reply C)
unfolding too_many
limit json created now request call_next (m, a) =
    let (asked, after) = RateLimit.dispatch created now request m in
    elim asked [
      | rate_limited ↦ (ok (too_many json), (after, a))
      | passed ↦ let (answered, left) = call_next a in (answered, (after, left))
    ]
