-- ===== src/Providers/Http/Attempts.antt =====
-- How often a provider is called.
use llm_semantic_caching_lay.Prelude.{
  ℕ, zero, suc, ◌+◌, ◌<◌, ◌≡◌, ◌≢◌, refl, sym, ap, ◌∙◌, arith, Text,
}
use llm_semantic_caching_lay.Providers.Http.{Sent, answered, transport_error, failed, Retry}

-- What the program relies on of the decorator: a single attempt is the call; with more attempts, a
-- transport error is followed by the rest of them, and anything else is the outcome.
pub record IsRetry {N A : Type 0} (retry : Retry N A) : Type 0 where
  pub once : (call : N → Sent A × N) (s : N) → retry 1 call s ≡ call s
  pub again :
      (n : ℕ) (call : N → Sent A × N) (s t : N) (m : Text)
      → call s ≡ (transport_error m, t)
      → retry (suc (suc n)) call s ≡ retry (suc n) call t
  pub settled :
      (n : ℕ) (call : N → Sent A × N) (s : N)
      → ((m : Text) → (call s).0 ≢ transport_error m)
      → retry (suc (suc n)) call s ≡ call s

module _ {N A : Type 0} (call : N → Sent A × N) where
  -- The state before the call number `k`, where every call is made, and that call's outcome.
  unfoldable pub before : ℕ → N → N
  before zero s = s
  before (suc k) s = before k (call s).1

  abbrev pub sent : ℕ → N → Sent A
  sent k s = (call (before k s)).0

  -- Calls are made until one ends otherwise than in a transport error, and at most `n`.
  pub data Tried (n : ℕ) (s : N) (t : Sent A × N) : Type 0 where
    ended :
        (k : ℕ)
        → k < n
        → ((i : ℕ) → i < k → (m : Text) × (sent i s ≡ transport_error m))
        → ((m : Text) → sent k s ≢ transport_error m)
        → t ≡ call (before k s)
        → Tried n s t
    given_up :
        (k : ℕ)
        → n ≡ k + 1
        → ((i : ℕ) → i < n → (m : Text) × (sent i s ≡ transport_error m))
        → t ≡ call (before k s)
        → Tried n s t

  pub data Kind (r : Sent A × N) : Type 0 where
    lost : (m : Text) (t : N) → r ≡ (transport_error m, t) → Kind r
    settles : ((m : Text) → r.0 ≢ transport_error m) → Kind r

  kind : (r : Sent A × N) → Kind r
  kind (answered a, t) = settles (λ m h. cc)
  kind (transport_error m, t) = lost m t refl
  kind (failed e, t) = settles (λ m h. cc)

  -- The first `j` calls end in a transport error.
  abbrev pub AllLost : ℕ → N → Type 0
  AllLost j s = (i : ℕ) → i < j → (m : Text) × (sent i s ≡ transport_error m)

  AllLost-suc :
      (s t : N) (m : Text) (j : ℕ)
      → call s ≡ (transport_error m, t)
      → AllLost j t
      → AllLost (suc j) s
  unfolding before
  AllLost-suc s t m j e all zero l = (m, ap (λ r. r.0) e)
  AllLost-suc s t m j e all (suc i) l =
      let (m', lost_i) = all i (omega (arith, l)) in
      (m', ap (λ u. sent i u) (ap (λ r. r.1) e) ∙ lost_i)

  later : (s t : N) (r : Sent A) (k : ℕ) → call s ≡ (r, t) → before (suc k) s ≡ before k t
  unfolding before
  later s t r k e = ap (λ u. before k u.1) e

  module _ (retry : Retry N A) (lawful : IsRetry retry) where
    pub retry-Tried : (n : ℕ) (s : N) → Tried (suc n) s (retry (suc n) call s)
    unfolding before
    retry-Tried zero s = elim (kind (call s)) [
      | lost m t e ↦
          given_up 0 refl (AllLost-suc s t m 0 e (λ i l. absurd (omega (arith, l))))
            (lawful.once call s)
      | settles h ↦ ended 0 (omega arith) (λ i l. absurd (omega (arith, l))) h (lawful.once call s)
    ]
    retry-Tried (suc n) s = elim (kind (call s)) [
      | lost m t e ↦ elim (retry-Tried n t) [
        | ended k l all final r ↦
            ended (suc k) (omega (arith, l)) (AllLost-suc s t m k e all)
              (λ m' h.
                final m' (sym (ap (λ u. (call u).0) (later s t (transport_error m) k e)) ∙ h))
              (lawful.again n call s t m e ∙ r ∙ ap call (sym (later s t (transport_error m) k e)))
        | given_up k count all r ↦
            given_up (suc k) (omega (arith, count)) (AllLost-suc s t m (suc n) e all)
              (lawful.again n call s t m e ∙ r ∙ ap call (sym (later s t (transport_error m) k e)))
      ]
      | settles h ↦
          ended 0 (omega arith) (λ i l. absurd (omega (arith, l))) h (lawful.settled n call s h)
    ]
