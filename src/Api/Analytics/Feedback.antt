-- ===== src/Api/Analytics/Feedback.antt =====
-- Feedback, and the thresholds that are shown after it.
use llm_semantic_caching_lay.Prelude.{
  ◌≡◌, refl, sym, ap, ◌∙◌, inl, inr, Bool, true, false, Bool-cases, none, some, [], ◌∷◌, codes,
  text_eq, text_eq_iff, Result, ok, raise, Error, Option, if◌then◌else◌,
}
use llm_semantic_caching_lay.Prelude.Dict
use llm_semantic_caching_lay.Float.{Float}
use llm_semantic_caching_lay.Models.Json.{Json, float, str, obj, empty, field}
use llm_semantic_caching_lay.Policies.Threshold.{
  ThresholdCategory, classification, programming, creative, general, Policies, CategoryPolicy,
  category_value, is_category, record_feedback, snapshot, adjust, delta_of,
}
use llm_semantic_caching_lay.Api.Analytics.{
  ThresholdFeedback, current_thresholds, threshold_feedback,
}

-- Categories have different names.
text_eq-category_value :
    (c d : ThresholdCategory) → text_eq (category_value c) (category_value d) ≡ is_category c d
unfolding category_value is_category text_eq
text_eq-category_value classification classification = refl
text_eq-category_value classification programming = refl
text_eq-category_value classification creative = refl
text_eq-category_value classification general = refl
text_eq-category_value programming classification = refl
text_eq-category_value programming programming = refl
text_eq-category_value programming creative = refl
text_eq-category_value programming general = refl
text_eq-category_value creative classification = refl
text_eq-category_value creative programming = refl
text_eq-category_value creative creative = refl
text_eq-category_value creative general = refl
text_eq-category_value general classification = refl
text_eq-category_value general programming = refl
text_eq-category_value general creative = refl
text_eq-category_value general general = refl

same_category :
    (d c x : ThresholdCategory) → is_category d c ≡ true → is_category d x ≡ is_category c x
same_category d c x h =
    sym (text_eq-category_value d x)
    ∙ ap (λ v. text_eq v (category_value x))
        ((text_eq_iff (category_value d) (category_value c)).0 (text_eq-category_value d c ∙ h))
    ∙ text_eq-category_value c x

module _ {F : Type 0} ⦃f : Float F⦄ where
  -- The threshold that is shown for a category.
  abbrev pub shown : Policies F → ThresholdCategory → Option F
  shown ps c = Dict.get (current_thresholds ps) (category_value c)

  shown-cons :
      (d c : ThresholdCategory) (p : CategoryPolicy F) (ps : Policies F)
      → shown ((d, p) ∷ ps) c ≡ (if is_category d c then some p.current else shown ps c)
  unfolding current_thresholds snapshot Dict.get
  shown-cons d c p ps =
      ap (λ b. if b then some p.current else Dict.get (snapshot ps) (category_value c))
        (text_eq-category_value d c)

  -- What feedback on a category comes to: the value it returns, or an error, and what is shown then.
  pub data Updated (c : ThresholdCategory) (ps : Policies F) (t : Result F × Policies F)
      : Type 0 where
    updated :
        (x : F) (after : Policies F)
        → t ≡ (ok x, after)
        → shown after c ≡ some x
        → ((d : ThresholdCategory) → is_category c d ≡ false → shown after d ≡ shown ps d)
        → Updated c ps t
    unknown : (e : Error) → shown ps c ≡ none → t ≡ (raise e, ps) → Updated c ps t

  Updated-later :
      (d c : ThresholdCategory) (p : CategoryPolicy F) (ps : Policies F) (t : Result F × Policies F)
      → is_category d c ≡ false
      → Updated c ps t
      → Updated c ((d, p) ∷ ps) (t.0, (d, p) ∷ t.1)
  Updated-later d c p ps t other (updated x after left now rest) =
      updated x ((d, p) ∷ after) (ap (λ u. (u.0, (d, p) ∷ u.1)) left)
        (shown-cons d c p after ∙ ap (λ b. if b then some p.current else shown after c) other ∙ now)
        (λ e h.
          shown-cons d e p after
          ∙ ap (λ o. if is_category d e then some p.current else o) (rest e h)
          ∙ sym (shown-cons d e p ps))
  Updated-later d c p ps t other (unknown e absent left) =
      unknown e
        (shown-cons d c p ps ∙ ap (λ b. if b then some p.current else shown ps c) other ∙ absent)
        (ap (λ u. (u.0, (d, p) ∷ u.1)) left)

  record_feedback-Updated :
      (c : ThresholdCategory) (false_hit : Bool) (ps : Policies F)
      → Updated c ps (record_feedback c false_hit ps)
  unfolding record_feedback current_thresholds snapshot Dict.get
  record_feedback-Updated c false_hit [] = unknown _ refl refl
  record_feedback-Updated c false_hit ((d, p) ∷ ps) = elim (Bool-cases (is_category d c)) [
    | inl same ↦
        let q : CategoryPolicy F = adjust (delta_of false_hit p) p in
        updated q.current ((d, q) ∷ ps) (rw (record_feedback, same) refl)
          (shown-cons d c q ps ∙ ap (λ b. if b then some q.current else shown ps c) same)
          (λ e h.
            let other : is_category d e ≡ false = same_category d c e same ∙ h in
            shown-cons d e q ps
            ∙ ap (λ b. if b then some q.current else shown ps e) other
            ∙ sym (shown-cons d e p ps ∙ ap (λ b. if b then some p.current else shown ps e) other))
    | inr other ↦
        rw (record_feedback, other)
          (Updated-later d c p ps (record_feedback c false_hit ps) other
            (record_feedback-Updated c false_hit ps))
  ]

  -- The reply to feedback.
  abbrev pub reply : ThresholdCategory → F → Json F
  reply c x = obj (
      field (codes "category") (str (category_value c)) (field (codes "threshold") (float x) empty))

  -- What the route comes to.
  pub data Answered (feedback : ThresholdFeedback) (ps : Policies F)
      (t : Result (Json F) × Policies F) : Type 0 where
    answered :
        (x : F) (after : Policies F)
        → t ≡ (ok (reply feedback.category x), after)
        → shown after feedback.category ≡ some x
        → ((d : ThresholdCategory)
            → is_category feedback.category d ≡ false
            → shown after d ≡ shown ps d)
        → Answered feedback ps t
    refused :
        (e : Error) → shown ps feedback.category ≡ none → t ≡ (raise e, ps) → Answered feedback ps t

  -- Feedback on a category for which a threshold is shown is answered with a number, and the
  -- thresholds shown after it are that number for the category, and as before for the others.
  -- Feedback on any other category raises and changes nothing.
  pub threshold_feedback-Answered :
      (feedback : ThresholdFeedback) (ps : Policies F)
      → Answered feedback ps (threshold_feedback feedback ps)
  unfolding threshold_feedback
  threshold_feedback-Answered feedback ps =
      elim (record_feedback-Updated feedback.category feedback.false_hit ps) [
        | updated x after left now rest ↦
            answered x after (rw (threshold_feedback, left) refl) now rest
        | unknown e absent left ↦ refused e absent (rw (threshold_feedback, left) refl)
      ]
