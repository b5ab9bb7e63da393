-- ===== src/Core/RateLimit/Admission.antt =====
-- What a bucket admits, and that clients do not disturb each other.
use llm_semantic_caching_lay.Prelude.{
  ℕ, zero, suc, ◌+◌, ◌≤◌, ◌≡◌, ◌≢◌, ◌⊎◌, refl, sym, ap, ◌∙◌, inl, inr, min, Bool, true, false,
  Bool-cases, Option-cases, Option, none, some, [], ◌∷◌, ◌++◌, any, leb, ltb, arith, Text, codes,
  text_eq, text_eq_iff, truthy, if◌then◌else◌,
}
use llm_semantic_caching_lay.Prelude.Int.{pos}
use llm_semantic_caching_lay.Prelude.Dict
use llm_semantic_caching_lay.Prelude.Dict.{get-put}
use llm_semantic_caching_lay.Float.{Float}
use llm_semantic_caching_lay.Core.RateLimit.{
  TokenBucket, Request, RateLimitMiddleware, client, client_key, new_bucket, refilled, allow,
  dispatch,
}

-- Whole numbers up to 2^53 are exact floats: they compare as they are, one can be taken away, and
-- no time that has passed adds nothing.
pub record IsCounting {F : Type 0} (f : Float F) : Type 0 where
  pub at_least_one :
      (n : ℕ) → n ≤ 9007199254740992 → f.le (f.ratio 1 1) (f.of_int (pos n)) ≡ leb 1 n
  pub lt-of_int :
      (m n : ℕ)
      → m ≤ 9007199254740992
      → n ≤ 9007199254740992
      → f.lt (f.of_int (pos m)) (f.of_int (pos n)) ≡ ltb m n
  pub sub_one :
      (n : ℕ)
      → suc n ≤ 9007199254740992
      → f.sub (f.of_int (pos (suc n))) (f.ratio 1 1) ≡ f.of_int (pos n)
  pub still :
      (n : ℕ) (t rate : F)
      → n ≤ 9007199254740992
      → f.add (f.of_int (pos n)) (f.mul (f.sub t t) rate) ≡ f.of_int (pos n)

module _ {F : Type 0} ⦃f : Float F⦄ where
  -- How many of `n` requests at one reading of the clock a bucket admits.
  abbrev pub admitted : ℕ → F → TokenBucket F → ℕ
  admitted zero now b = 0
  admitted (suc n) now b = (if (allow now b).0 then 1 else 0) + admitted n now (allow now b).1

  abbrev holding : ℕ → ℕ → F → TokenBucket F
  holding rate tokens now = record {
    capacity = f.of_int (pos rate);
    tokens = f.of_int (pos tokens);
    refill_per_sec = f.of_int (pos rate);
    updated = now;
  }

  module _ (c : IsCounting f) (rate : ℕ) (small : rate ≤ 9007199254740992) (now : F) where
    refilled_still : (m : ℕ) → m ≤ rate → refilled now (holding rate m now) ≡ f.of_int (pos m)
    unfolding refilled
    refilled_still m h = elim (Bool-cases (ltb m rate)) [
      | inl below ↦
          rw
            (
              c.still m now (f.of_int (pos rate)) (omega arith),
              c.lt-of_int m rate (omega arith) small,
              below,
            )
            refl
      | inr full ↦
          rw
            (
              c.still m now (f.of_int (pos rate)) (omega arith),
              c.lt-of_int m rate (omega arith) small,
              full,
            )
            (ap (λ k. f.of_int (pos k)) (ground arith))
    ]

    allow_one :
        (m : ℕ) → suc m ≤ rate → allow now (holding rate (suc m) now) ≡ (true, holding rate m now)
    unfolding allow
    allow_one m h =
        let one_left : leb 1 (suc m) ≡ true = ground arith in
        rw
          (
            refilled_still (suc m) h,
            c.at_least_one (suc m) (omega arith),
            c.sub_one m (omega arith),
            one_left,
          )
          refl

    allow_none : allow now (holding rate 0 now) ≡ (false, holding rate 0 now)
    unfolding allow
    allow_none = rw (refilled_still 0 (omega arith), c.at_least_one 0 (omega arith)) refl

    admitted_lem : (n m : ℕ) → m ≤ rate → admitted n now (holding rate m now) ≡ min n m
    admitted_lem zero m h = omega arith
    admitted_lem (suc n) zero h = rw allow_none (omega (arith, admitted_lem n zero h))
    admitted_lem (suc n) (suc m) h =
        rw (allow_one m h) (omega (arith, admitted_lem n m (omega (arith, h))))

    -- A new bucket of a rate up to 2^53 admits, of `n` requests at one reading of the clock, as many
    -- as the rate, and all if there are no more.
    pub burst-admitted : (n : ℕ) → admitted n now (new_bucket (pos rate) now) ≡ min n rate
    unfolding new_bucket
    burst-admitted n = admitted_lem n rate (omega arith)

-- A tenant header that is not empty.
abbrev pub is_named : Option Text → Bool
is_named none = false
is_named (some t) = truthy t

-- Two requests of one client: of one named tenant, or of one host without a named tenant.
pub data SameClient (r q : Request) : Type 0 where
  same_tenant : is_named r.tenant_header ≡ true → r.tenant_header ≡ q.tenant_header → SameClient r q
  same_host :
      is_named r.tenant_header ≡ false
      → is_named q.tenant_header ≡ false
      → client r.client_host ≡ client q.client_host
      → SameClient r q

abbrev first : Text → ℕ
first [] = 0
first (c ∷ s) = c

prefixes_apart : (t u : Text) → codes "tenant:" ++ t ≢ codes "ip:" ++ u
prefixes_apart t u e = let differ : 116 ≡ 105 = ap first e in absurd (omega (arith, differ))

key_cases :
    (r : Request)
    → ((t : Text) × (r.tenant_header ≡ some t)
        × (is_named r.tenant_header ≡ true)
        × (client_key r ≡ codes "tenant:" ++ t))
      ⊎ ((is_named r.tenant_header ≡ false) × (client_key r ≡ codes "ip:" ++ client r.client_host))
unfolding client_key
key_cases r = elim (Option-cases r.tenant_header) [
  | inl absent ↦ inr (rw absent refl, rw absent refl)
  | inr (t, present) ↦ elim (Bool-cases (truthy t)) [
    | inl named ↦ inl (t, present, rw (present, named) refl, rw (present, named) refl)
    | inr empty ↦ inr (rw (present, empty) refl, rw (present, empty) refl)
  ]
]

client_key-SameClient : (r q : Request) → client_key r ≡ client_key q → SameClient r q
client_key-SameClient r q e = elim (key_cases r) [
  | inl (t, here, named, key) ↦ elim (key_cases q) [
    | inl (u, there, named1, key1) ↦
        let same : Path Text (codes "tenant:" ++ t) (codes "tenant:" ++ u) = sym key ∙ e ∙ key1 in
        same_tenant named (cc)
    | inr (other, key1) ↦
        let same : Path Text (codes "tenant:" ++ t) (codes "ip:" ++ client q.client_host) =
          sym key ∙ e ∙ key1 in
        absurd (prefixes_apart t _ same)
  ]
  | inr (other, key) ↦ elim (key_cases q) [
    | inl (u, there, named1, key1) ↦
        let same : Path Text (codes "ip:" ++ client r.client_host) (codes "tenant:" ++ u) =
          sym key ∙ e ∙ key1 in
        absurd (prefixes_apart u _ (sym same))
    | inr (other1, key1) ↦
        let same : Path Text (codes "ip:" ++ client r.client_host)
            (codes "ip:" ++ client q.client_host) =
          sym key ∙ e ∙ key1 in
        same_host other other1 (cc)
  ]
]

module _ {F : Type 0} ⦃f : Float F⦄ where
  -- A request leaves the bucket of any other request as it is, unless the two are of one client:
  -- of the same named tenant, or without a named tenant and of the same host.
  pub dispatch-SameClient :
      (created now : F) (r q : Request) (m : RateLimitMiddleware F)
      → SameClient r q
        ⊎ (Dict.get (dispatch created now r m).1.buckets (client_key q)
            ≡ Dict.get m.buckets (client_key q))
  unfolding dispatch
  dispatch-SameClient created now r q m =
      elim (Bool-cases (text_eq (client_key r) (client_key q))) [
        | inl same ↦
            inl (client_key-SameClient r q ((text_eq_iff (client_key r) (client_key q)).0 same))
        | inr other ↦ elim (Bool-cases (any (text_eq r.path) m.exempt)) [
          | inl exempt ↦ inr (rw (dispatch, exempt) refl)
          | inr limited ↦ inr (rw (dispatch, limited) (rw (get-put, other) refl))
        ]
      ]
