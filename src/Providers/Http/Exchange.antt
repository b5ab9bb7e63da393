-- ===== src/Providers/Http/Exchange.antt =====
-- What a call of a provider comes to.
use llm_semantic_caching_lay.Prelude.{
  ℕ, ◌<◌, ◌≡◌, ◌≢◌, refl, sym, ap, ◌∙◌, inl, inr, Bool-cases, result_cases, true, false, [], leb,
  take, arith, Text, Result, raise, Error, provider_error, failure, codes, ◌++◌, and_then,
}
use llm_semantic_caching_lay.Prelude.Int.{pos}
use llm_semantic_caching_lay.Prelude.Decimal.{str_int}
use llm_semantic_caching_lay.Models.Json.{Json}
use llm_semantic_caching_lay.Providers.Http.{
  Response, Sent, answered, transport_error, failed, Retry, outcome, refusal, read_response,
  attempt,
}
use llm_semantic_caching_lay.Providers.Http.Attempts.{
  IsRetry, before, sent, ended, given_up, retry-Tried,
}

module _ {F N A : Type 0} (post : N → Sent (Response F) × N) (name : Text)
    (convert : Json F → Result A) where
  abbrev pub once : N → Sent A × N
  once = attempt post (read_response name convert)

  -- The state before the post number `k`, where every one is made.
  abbrev pub at : ℕ → N → N
  at k s = before once k s

  -- The first `k` posts were lost, and that number `k` gave `given`.
  abbrev pub Reached : ℕ → N → Sent (Response F) → Type 0
  Reached k s given =
      ((i : ℕ) → i < k → (m : Text) × ((post (at i s)).0 ≡ transport_error m))
      × ((post (at k s)).0 ≡ given)

  -- What `complete` returns and the state that it leaves, where at most three posts are made.
  pub data Exchanged (s : N) (t : Result A × N) : Type 0 where
    answers :
        (k : ℕ) (r : Response F)
        → k < 3
        → Reached k s (answered r)
        → leb 400 r.status_code ≡ false
        → t ≡ (and_then r.json convert, (post (at k s)).1)
        → Exchanged s t
    refuses :
        (k : ℕ) (r : Response F)
        → k < 3
        → Reached k s (answered r)
        → leb 400 r.status_code ≡ true
        → t ≡ (
          raise (
              provider_error
                (name
                  ++ (codes " returned "
                      ++ (str_int (pos r.status_code) ++ (codes ": " ++ take 200 r.text))))
                r.status_code
                name),
          (post (at k s)).1,
        )
        → Exchanged s t
    fails :
        (k : ℕ) (e : Error)
        → k < 3
        → Reached k s (failed e)
        → t ≡ (raise e, (post (at k s)).1)
        → Exchanged s t
    gives_up :
        (m : Text)
        → Reached 2 s (transport_error m)
        → t ≡ (raise (failure m), (post (at 2 s)).1)
        → Exchanged s t

  data Kind (given : Sent (Response F) × N) : Type 0 where
    replied : (r : Response F) (t : N) → given ≡ (answered r, t) → Kind given
    lost : (m : Text) (t : N) → given ≡ (transport_error m, t) → Kind given
    broke : (e : Error) (t : N) → given ≡ (failed e, t) → Kind given

  kind : (given : Sent (Response F) × N) → Kind given
  kind (answered r, t) = replied r t refl
  kind (transport_error m, t) = lost m t refl
  kind (failed e, t) = broke e t refl

  outcome-read_response :
      (r : Response F)
      → leb 400 r.status_code ≡ false
      → outcome (read_response name convert r) ≡ and_then r.json convert
  unfolding read_response outcome
  outcome-read_response r h = elim (result_cases (and_then r.json convert)) [
    | inl (a, e) ↦ rw (h, e) refl
    | inr (x, e) ↦ rw (h, e) refl
  ]

  read_response-refused :
      (r : Response F)
      → leb 400 r.status_code ≡ true
      → read_response name convert r ≡ failed (refusal name [] r.status_code (take 200 r.text))
  unfolding read_response
  read_response-refused r h = rw h refl

  read_response-final :
      (r : Response F) (m : Text) → read_response name convert r ≢ transport_error m
  unfolding read_response
  read_response-final r m h = elim (Bool-cases (leb 400 r.status_code)) [
    | inl high ↦
        let same : failed _ ≡ transport_error m = sym (read_response-refused r high) ∙ h in
        absurd (cc)
    | inr low ↦ elim (result_cases (and_then r.json convert)) [
      | inl (a, e) ↦
          let same : answered a ≡ transport_error m = sym (rw (low, e) refl) ∙ h in absurd (cc)
      | inr (x, e) ↦
          let same : Path (Sent A) (failed x) (transport_error m) = sym (rw (low, e) refl) ∙ h in
          absurd (cc)
    ]
  ]

  -- A lost attempt is a lost post.
  post_lost : (s : N) (m : Text) → (once s).0 ≡ transport_error m → (post s).0 ≡ transport_error m
  unfolding attempt
  post_lost s m h = elim (kind (post s)) [
    | replied r t e ↦ absurd (read_response-final r m (sym (rw (attempt, e) refl) ∙ h))
    | lost m' t e ↦
        let same : Path (Sent A) (transport_error m') (transport_error m) =
          sym (rw (attempt, e) refl) ∙ h in
        ap (λ p. p.0) e
        ∙ ap (λ q. elim q [ transport_error n ↦ transport_error n | _ ↦ transport_error [] ]) same
    | broke x t e ↦
        let same : Path (Sent A) (failed x) (transport_error m) = sym (rw (attempt, e) refl) ∙ h in
        absurd (cc)
  ]

  module _ (retry : Retry N A) (lawful : IsRetry retry) where
    abbrev result : N → Result A × N
    result s = (outcome (retry 3 once s).0, (retry 3 once s).1)

    landed :
        (k : ℕ) (s t : N) (x : Sent (Response F)) (y : Sent A) (z : Result A)
        → retry 3 once s ≡ once (at k s)
        → post (at k s) ≡ (x, t)
        → once (at k s) ≡ (y, t)
        → outcome y ≡ z
        → result s ≡ (z, (post (at k s)).1)
    landed k s t x y z last given read known =
        ap (λ p. (outcome p.0, p.1)) (last ∙ read)
        ∙ ap (λ q. (q, t)) known
        ∙ ap (λ q. (z, q)) (sym (ap (λ p. p.1) given))

    ended-Exchanged :
        (k : ℕ) (s : N)
        → k < 3
        → ((i : ℕ) → i < k → (m : Text) × ((post (at i s)).0 ≡ transport_error m))
        → ((m : Text) → sent once k s ≢ transport_error m)
        → retry 3 once s ≡ once (at k s)
        → Exchanged s (result s)
    unfolding attempt outcome refusal
    ended-Exchanged k s l earlier final last = elim (kind (post (at k s))) [
      | replied r t given ↦
          let read : once (at k s) ≡ (read_response name convert r, t) = rw (attempt, given) refl in
          elim (Bool-cases (leb 400 r.status_code)) [
            | inl high ↦
                refuses k r l (earlier, ap (λ p. p.0) given) high
                  (landed k s t (answered r) (read_response name convert r) _ last given read
                    (ap outcome (read_response-refused r high)))
            | inr low ↦
                answers k r l (earlier, ap (λ p. p.0) given) low
                  (landed k s t (answered r) (read_response name convert r) _ last given read
                    (outcome-read_response r low))
          ]
      | lost m t given ↦ absurd (final m (rw (attempt, given) refl))
      | broke x t given ↦
          fails k x l (earlier, ap (λ p. p.0) given)
            (landed k s t (failed x) (failed x) (raise x) last given (rw (attempt, given) refl)
              refl)
    ]

    pub retry-Exchanged : (s : N) → Exchanged s (result s)
    unfolding attempt outcome
    retry-Exchanged s = elim (retry-Tried once retry lawful 2 s) [
      | ended k l all final e ↦
          ended-Exchanged k s l
            (λ i below. let (m, lost_i) = all i below in (m, post_lost (at i s) m lost_i)) final e
      | given_up k count all e ↦
          let (m, lost_last) = all 2 (omega arith) in
          let two : k ≡ 2 = omega (arith, count) in
          let last_lost = post_lost (at 2 s) m lost_last in
          gives_up m
            (
              λ i below.
                  let (n, lost_i) = all i (omega (arith, below)) in
                  (n, post_lost (at i s) n lost_i),
              last_lost,
            )
            (landed 2 s (post (at 2 s)).1 (transport_error m) (transport_error m)
              (raise (failure m)) (e ∙ ap (λ j. once (at j s)) two)
              (ap (λ q. (q, (post (at 2 s)).1)) last_lost)
              (ap (λ q. (q, (post (at 2 s)).1)) lost_last) refl)
    ]
