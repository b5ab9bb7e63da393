-- ===== src/Core/Correlation/Tagging.antt =====
-- The middleware as `create_app` stacks it: correlation outside, the limiter inside.
use llm_semantic_caching_lay.Prelude.{
  ◌≡◌, refl, ap, inl, inr, outcome_cases, ◌⊎◌, Option, Option-cases, subst, none, some, [], ◌∷◌,
  Text, codes, Exec, Result, ok, raise, Error,
}
use llm_semantic_caching_lay.Prelude.Dict
use llm_semantic_caching_lay.Float.{Float}
use llm_semantic_caching_lay.Models.Json.{Json, str, obj, empty, field}
use llm_semantic_caching_lay.Core.Http.{Reply}
use llm_semantic_caching_lay.Core.RateLimit.{
  Request, Answer, RateLimitMiddleware, rate_limited, passed,
}
use llm_semantic_caching_lay.Core.RateLimit
use llm_semantic_caching_lay.Core.Correlation.{
  Context, correlation_id, first_present, dispatch, finish, limit, too_many,
}

module _ {F A C : Type 0} ⦃f : Float F⦄ (json : Json F → C) (created now : F) (request : Request)
    (drawn : Text) (header : Text → Option Text) (app : Text → Exec A (Reply C)) where
  abbrev pub id : Text
  id = correlation_id drawn header

  -- The application sees the identifier that is bound while it runs.
  abbrev bound_app : Option Text → Exec A (Reply C)
  bound_app none a = app [] a
  bound_app (some i) a = app i a

  -- The limiter behind the correlation middleware.
  unfoldable pub behind : Exec (Context (RateLimitMiddleware F × A)) (Reply C)
  unfolding limit
  behind c =
      let (answered, after) = limit json created now request (bound_app c.correlation_id) c.app in
      (answered, record c { app = after })

  unfoldable pub handle : Exec (Context (RateLimitMiddleware F × A)) (Reply C)
  unfolding dispatch behind
  handle = dispatch drawn header behind

  -- The value of the first of the two headers that is present, unless that is empty, and what is
  -- drawn otherwise.
  abbrev pub chosen : Text
  chosen = of_headers (header (codes "x-correlation-id")) (header (codes "x-request-id"))
    where
      of_headers : Option Text → Option Text → Text
      of_headers (some []) other = drawn
      of_headers (some (c ∷ given)) other = c ∷ given
      of_headers none (some []) = drawn
      of_headers none (some (c ∷ given)) = c ∷ given
      of_headers none none = drawn

  abbrev pub tagged : Text → Reply C → Reply C
  tagged i r = record r { headers = Dict.put r.headers (codes "X-Correlation-ID") i }

  -- The answer to a client that has no token left.
  abbrev pub rejection : Reply C
  rejection = record {
    status = 429;
    headers = (codes "Retry-After", codes "1") ∷ [];
    content = json (
        obj (
          field (codes "error")
            (obj (
              field (codes "message") (str (codes "rate limit exceeded"))
                (field (codes "type") (str (codes "rate_limit_error")) empty)))
            empty));
  }

  abbrev asked : RateLimitMiddleware F → Answer × RateLimitMiddleware F
  asked m = RateLimit.dispatch created now request m

  -- What a request with the identifier `i` comes to, from a limiter `m` and an application in the state `a`.
  pub data Handled (i : Text) (m : RateLimitMiddleware F) (a : A)
      (t : Result (Reply C) × Context (RateLimitMiddleware F × A)) : Type 0 where
    rejected :
        (asked m).0 ≡ rate_limited
        → t ≡ (ok (tagged i rejection), record { correlation_id = none; app = ((asked m).1, a) })
        → Handled i m a t
    answered :
        (r : Reply C) (a' : A)
        → (asked m).0 ≡ passed
        → app i a ≡ (ok r, a')
        → t ≡ (ok (tagged i r), record { correlation_id = none; app = ((asked m).1, a') })
        → Handled i m a t
    raised :
        (e : Error) (a' : A)
        → (asked m).0 ≡ passed
        → app i a ≡ (raise e, a')
        → t ≡ (raise e, record { correlation_id = none; app = ((asked m).1, a') })
        → Handled i m a t

  answer_cases : (x : Answer) → (x ≡ rate_limited) ⊎ (x ≡ passed)
  answer_cases rate_limited = inl refl
  answer_cases passed = inr refl

  -- The context while the application runs.
  abbrev during : RateLimitMiddleware F → A → Context (RateLimitMiddleware F × A)
  during m a = record { correlation_id = some id; app = (m, a) }

  limit_rejects :
      (m : RateLimitMiddleware F) (a : A)
      → (asked m).0 ≡ rate_limited
      → limit json created now request (app id) (m, a) ≡ (ok (too_many json), ((asked m).1, a))
  unfolding limit
  limit_rejects m a h = rw (limit, h) refl

  limit_passes :
      (m : RateLimitMiddleware F) (a a' : A) (r : Result (Reply C))
      → (asked m).0 ≡ passed
      → app id a ≡ (r, a')
      → limit json created now request (app id) (m, a) ≡ (r, ((asked m).1, a'))
  unfolding limit
  limit_passes m a a' r h e = rw (limit, h, e) refl

  behind_limited :
      (m : RateLimitMiddleware F) (a : A)
      → (asked m).0 ≡ rate_limited
      → behind (during m a) ≡ (ok (too_many json), during (asked m).1 a)
  unfolding behind limit
  behind_limited m a h = ap (λ t. (t.0, record (during m a) { app = t.1 })) (limit_rejects m a h)

  behind_passed :
      (m : RateLimitMiddleware F) (a a' : A) (r : Result (Reply C))
      → (asked m).0 ≡ passed
      → app id a ≡ (r, a')
      → behind (during m a) ≡ (r, during (asked m).1 a')
  unfolding behind limit
  behind_passed m a a' r h e =
      ap (λ t. (t.0, record (during m a) { app = t.1 })) (limit_passes m a a' r h e)

  handled :
      (m : RateLimitMiddleware F) (a : A) (before : Option Text)
      → Handled id m a (handle (record { correlation_id = before; app = (m, a) }))
  unfolding handle dispatch finish too_many
  handled m a before = elim (answer_cases (asked m).0) [
    | inl limited ↦ rejected limited (ap (finish id) (behind_limited m a limited))
    | inr free ↦ elim (outcome_cases (app id a)) [
      | inl (r, a', e) ↦ answered r a' free e (ap (finish id) (behind_passed m a a' (ok r) free e))
      | inr (x, a', e) ↦ raised x a' free e (ap (finish id) (behind_passed m a a' (raise x) free e))
    ]
  ]

  id_chosen : id ≡ chosen
  unfolding correlation_id first_present
  id_chosen = elim (Option-cases (header (codes "x-correlation-id"))) [
    | inl absent ↦ elim (Option-cases (header (codes "x-request-id"))) [
      | inl missing ↦ rw (correlation_id, first_present, absent, missing) refl
      | inr ([], given) ↦ rw (correlation_id, first_present, absent, given) refl
      | inr (c ∷ v, given) ↦ rw (correlation_id, first_present, absent, given) refl
    ]
    | inr ([], given) ↦ rw (correlation_id, first_present, given) refl
    | inr (c ∷ v, given) ↦ rw (correlation_id, first_present, given) refl
  ]

  -- A request that the limiter rejects is answered with status 429, the header `Retry-After` and
  -- the request's correlation identifier, and the application is not run. Any other runs the
  -- application with that identifier bound, and is answered as it answers, with the identifier in
  -- the headers, or raises what it raises. In all cases no identifier stays bound.
  pub handle-Handled :
      (m : RateLimitMiddleware F) (a : A) (before : Option Text)
      → Handled chosen m a (handle (record { correlation_id = before; app = (m, a) }))
  handle-Handled m a before =
      subst (λ i. Handled i m a (handle (record { correlation_id = before; app = (m, a) })))
        id_chosen (handled m a before)
