-- ===== src/Policies/Threshold/Bounds.antt =====
-- What feedback does to the thresholds.
use llm_semantic_caching_lay.Prelude.{
  ◌≡◌, ◌∙◌, refl, sym, ap, inl, inr, Bool, true, false, Bool-cases, List, [], ◌∷◌, All, arith, Text,
  Result, ok, if◌then◌else◌, subst,
}
use llm_semantic_caching_lay.Float.{Float, IsOrdered}
use llm_semantic_caching_lay.Policies.Threshold.{
  ThresholdCategory, is_category, CategoryPolicy, Policies, max_of, adjust, policy_of, delta_of,
  record_feedback, threshold_for_prompt, categorize,
}

module _ {F : Type 0} ⦃f : Float F⦄ where
  -- The current threshold is within the bounds of its category.
  pub record IsBounded (p : CategoryPolicy F) : Type 0 where
    pub consistent : f.le p.minimum p.maximum ≡ true
    pub above : f.le p.minimum p.current ≡ true
    pub below : f.le p.current p.maximum ≡ true

  abbrev pub AllBounded : Policies F → Type 0
  AllBounded ps = All (λ q. IsBounded q.1) ps

  -- The feedback given, the last one first.
  abbrev pub after_feedback : List (ThresholdCategory × Bool) → Policies F → Policies F
  after_feedback [] ps = ps
  after_feedback ((c, false_hit) ∷ more) ps =
      (record_feedback c false_hit (after_feedback more ps)).1

  found_head :
      (b c : ThresholdCategory) (p : CategoryPolicy F) (ps : Policies F) {q : CategoryPolicy F}
      → is_category b c ≡ true
      → policy_of c ((b, p) ∷ ps) ≡ ok q
      → p ≡ q
  unfolding policy_of
  found_head b c p ps {q} here found =
      let same : Path (Result (CategoryPolicy F)) (ok p) (ok q) = sym (rw here refl) ∙ found in cc

  found_tail :
      (b c : ThresholdCategory) (p : CategoryPolicy F) (ps : Policies F) {q : CategoryPolicy F}
      → is_category b c ≡ false
      → policy_of c ((b, p) ∷ ps) ≡ ok q
      → policy_of c ps ≡ ok q
  unfolding policy_of
  found_tail b c p ps there found = sym (rw there refl) ∙ found

  module _ (o : IsOrdered f) where
    adjust-IsBounded : (delta : F) (p : CategoryPolicy F) → IsBounded p → IsBounded (adjust delta p)
    unfolding adjust
    adjust-IsBounded delta p h =
        let raised = max_of p.minimum (f.add p.current delta) in
        record {
          consistent = h.consistent;
          above = ground (
            arith,
            h.consistent,
            o.le_refl p.minimum,
            o.lt-eq-not-le p.minimum (f.add p.current delta),
            o.le_total (f.add p.current delta) p.minimum,
          );
          below = ground (
            arith,
            h.consistent,
            o.le_refl p.maximum,
            o.lt-eq-not-le raised p.maximum,
            o.le_total p.maximum raised,
          );
        }

    feedback-AllBounded :
        (c : ThresholdCategory) (false_hit : Bool) (ps : Policies F)
        → AllBounded ps
        → AllBounded (record_feedback c false_hit ps).1
    unfolding record_feedback
    feedback-AllBounded c false_hit [] h = tt
    feedback-AllBounded c false_hit ((d, p) ∷ ps) h = elim (Bool-cases (is_category d c)) [
      | inl same ↦ rw same (adjust-IsBounded (delta_of false_hit p) p h.0, h.1)
      | inr other ↦ rw other (h.0, feedback-AllBounded c false_hit ps h.1)
    ]

    histories-AllBounded :
        (given : List (ThresholdCategory × Bool)) (ps : Policies F)
        → AllBounded ps
        → AllBounded (after_feedback given ps)
    histories-AllBounded [] ps h = h
    histories-AllBounded ((c, false_hit) ∷ more) ps h =
        feedback-AllBounded c false_hit (after_feedback more ps) (histories-AllBounded more ps h)

    -- A policy with the limits of another, and its threshold within them.
    pub record Adapted (p q : CategoryPolicy F) : Type 0 where
      pub lowest : q.minimum ≡ p.minimum
      pub highest : q.maximum ≡ p.maximum
      pub bounded : IsBounded q

    feedback-Adapted :
        (c d : ThresholdCategory) (false_hit : Bool) (ps : Policies F) {p q : CategoryPolicy F}
        → policy_of c ps ≡ ok q
        → Adapted p q
        → (r : CategoryPolicy F) × (policy_of c (record_feedback d false_hit ps).1 ≡ ok r)
          × Adapted p r
    unfolding record_feedback policy_of
    feedback-Adapted c d false_hit [] found h = absurd (cc)
    feedback-Adapted c d false_hit ((b, p1) ∷ ps) {p = p} {q = q} found h =
        let adjusted = adjust (delta_of false_hit p1) p1 in
        elim (Bool-cases (is_category b d)) [
          | inl same ↦ elim (Bool-cases (is_category b c)) [
            | inl here ↦
                let h1 = subst (Adapted p) (sym (found_head b c p1 ps here found)) h in
                (
                  adjusted,
                  rw (same, here) refl,
                  record {
                    lowest = h1.lowest;
                    highest = h1.highest;
                    bounded = adjust-IsBounded (delta_of false_hit p1) p1 h1.bounded;
                  },
                )
            | inr there ↦ (q, rw (same, there) (found_tail b c p1 ps there found), h)
          ]
          | inr other ↦ elim (Bool-cases (is_category b c)) [
            | inl here ↦ (q, rw (other, here) (ap ok (found_head b c p1 ps here found)), h)
            | inr there ↦
                let (r, e, a) =
                  feedback-Adapted c d false_hit ps {p = p} {q = q}
                    (found_tail b c p1 ps there found) h in
                (r, rw (other, there) e, a)
          ]
        ]

    history-Adapted :
        (c : ThresholdCategory) (given : List (ThresholdCategory × Bool)) (ps : Policies F)
        {p : CategoryPolicy F}
        → policy_of c ps ≡ ok p
        → IsBounded p
        → (q : CategoryPolicy F) × (policy_of c (after_feedback given ps) ≡ ok q) × Adapted p q
    history-Adapted c [] ps {p} found h =
        (p, found, record { lowest = refl; highest = refl; bounded = h })
    history-Adapted c ((d, false_hit) ∷ more) ps found h =
        let (q, e, a) = history-Adapted c more ps found h in
        feedback-Adapted c d false_hit (after_feedback more ps) e a

    -- Where the category of a prompt has a policy whose threshold is within its bounds, the
    -- threshold for the prompt is found after any feedback to any categories, and it is within the
    -- bounds that the policy began with.
    pub threshold-bounds :
        (finds : Text → Text → Bool) (lower : Text → Text) (prompt : Text)
        (given : List (ThresholdCategory × Bool)) (ps : Policies F) (p : CategoryPolicy F)
        → policy_of (categorize finds lower prompt) ps ≡ ok p
        → IsBounded p
        → (x : F) × (threshold_for_prompt finds lower prompt (after_feedback given ps) ≡ ok x)
          × (f.le p.minimum x ≡ true)
          × (f.le x p.maximum ≡ true)
    unfolding threshold_for_prompt
    threshold-bounds finds lower prompt given ps p found h =
        let (q, e, a) = history-Adapted (categorize finds lower prompt) given ps found h in
        (
          q.current,
          rw (threshold_for_prompt, e) refl,
          subst (λ m. f.le m q.current ≡ true) a.lowest a.bounded.above,
          subst (λ m. f.le q.current m ≡ true) a.highest a.bounded.below,
        )

-- Adding what is not negative does not lower a number, and subtracting it does not raise it, also
-- when the sum is rounded.
pub record IsAdditive {F : Type 0} (f : Float F) : Type 0 where
  pub add_up : (x d : F) → f.le (f.ratio 0 1) d ≡ true → f.le x (f.add x d) ≡ true
  pub add_down :
      (x d : F) → f.le (f.ratio 0 1) d ≡ true → f.le (f.add x (f.sub (f.ratio 0 1) d)) x ≡ true

module _ {F : Type 0} ⦃f : Float F⦄ where
  -- Feedback does `adjust` on the policy of the category.
  feedback_lem :
      (c : ThresholdCategory) (false_hit : Bool) (ps : Policies F) (p : CategoryPolicy F)
      → policy_of c ps ≡ ok p
      → (record_feedback c false_hit ps).0 ≡ ok (adjust (delta_of false_hit p) p).current
  unfolding record_feedback policy_of
  feedback_lem c false_hit [] p found = absurd (cc)
  feedback_lem c false_hit ((b, p1) ∷ ps) p found = elim (Bool-cases (is_category b c)) [
    | inl here ↦
        rw here
          (ap (λ q. ok (adjust (delta_of false_hit q) q).current) (found_head b c p1 ps here found))
    | inr there ↦ rw there (feedback_lem c false_hit ps p (found_tail b c p1 ps there found))
  ]

  adjust_up :
      IsOrdered f
      → (p : CategoryPolicy F) (delta : F) → IsBounded p
      → f.le p.current (f.add p.current delta) ≡ true
      → f.le p.current (adjust delta p).current ≡ true
  unfolding adjust
  adjust_up o p delta h up =
      let sum = f.add p.current delta in
      ground (
        arith,
        h.below,
        up,
        o.lt-eq-not-le p.minimum sum,
        o.le_total sum p.minimum,
        o.le_trans p.current sum p.minimum,
      )

  adjust_down :
      IsOrdered f
      → (p : CategoryPolicy F) (delta : F) → IsBounded p
      → f.le (f.add p.current delta) p.current ≡ true
      → f.le (adjust delta p).current p.current ≡ true
  unfolding adjust
  adjust_down o p delta h down =
      let sum = f.add p.current delta in
      let raised = max_of p.minimum sum in
      ground (
        arith,
        h.above,
        down,
        o.lt-eq-not-le p.maximum raised,
        o.lt-eq-not-le raised p.maximum,
        o.le_total p.maximum raised,
        o.le_trans p.maximum raised p.current,
      )

  -- Feedback on a category that has a policy, its threshold within its bounds and its step not
  -- negative, returns the new threshold: not below the old one after a false hit, not above it
  -- after a needless miss.
  pub feedback-direction :
      IsOrdered f
      → IsAdditive f
      → (c : ThresholdCategory) (false_hit : Bool) (ps : Policies F) (p : CategoryPolicy F)
      → policy_of c ps ≡ ok p
      → IsBounded p
      → f.le (f.ratio 0 1) p.step ≡ true
      → (x : F) × ((record_feedback c false_hit ps).0 ≡ ok x)
        × (f.le (if false_hit then p.current else x) (if false_hit then x else p.current) ≡ true)
  unfolding delta_of
  feedback-direction o a c true ps p found h step =
      (_, feedback_lem c true ps p found, adjust_up o p p.step h (a.add_up p.current p.step step))
  feedback-direction o a c false ps p found h step = (
    _,
    feedback_lem c false ps p found,
    adjust_down o p (f.sub (f.ratio 0 1) p.step) h (a.add_down p.current p.step step),
  )
