-- ===== src/Policies/Threshold.antt =====
-- app/policies/threshold_engine.py.
pub mod Bounds
use llm_semantic_caching_lay.Prelude.{
  Bool, true, false, ◌||◌, List, [], ◌∷◌, any, Text, codes, is_in, strip, is_space, Result, ok,
  raise, key_error, Exec, if◌then◌else◌,
}
use llm_semantic_caching_lay.Prelude.Dict.{Dict}
use llm_semantic_caching_lay.Float.{Float}
use llm_semantic_caching_lay.Models.Chat.{ChatCompletionRequest, latest_user_prompt}

pub data ThresholdCategory : Type 0 where
  classification programming creative general : ThresholdCategory

unfoldable pub is_category : ThresholdCategory → ThresholdCategory → Bool
is_category classification classification = true
is_category programming programming = true
is_category creative creative = true
is_category general general = true
is_category _ _ = false

pub record CategoryPolicy (F : Type 0) : Type 0 where
  pub base : F
  pub minimum : F
  pub maximum : F
  pub step : F
  pub current : F

-- `self._policies`, in insertion order.
abbrev pub Policies : Type 0 → Type 0
Policies F = List (ThresholdCategory × CategoryPolicy F)

unfoldable pub creative_re : Text
creative_re =
    codes
      "\\b(write|compose|draft|brainstorm)\\b.*\\b(poem|story|song|essay|tagline|fiction|lyrics|joke|haiku)\\b|\\bcreative\\b|\\bimagine\\b"

unfoldable pub programming_keywords : List Text
programming_keywords =
    codes "code"
    ∷ codes "python"
    ∷ codes "javascript"
    ∷ codes "java"
    ∷ codes "c++"
    ∷ codes "rust"
    ∷ codes "golang"
    ∷ codes "function"
    ∷ codes "bug"
    ∷ codes "stack trace"
    ∷ codes "compile"
    ∷ codes "regex"
    ∷ codes "sql"
    ∷ codes "algorithm"
    ∷ codes "implement"
    ∷ codes "refactor"
    ∷ codes "unit test"
    ∷ codes "exception"
    ∷ codes "api endpoint"
    ∷ []

unfoldable pub classification_keywords : List Text
classification_keywords =
    codes "classify"
    ∷ codes "categorize"
    ∷ codes "sentiment"
    ∷ codes "is this"
    ∷ codes "label this"
    ∷ codes "yes or no"
    ∷ codes "true or false"
    ∷ codes "which category"
    ∷ codes "detect the"
    ∷ codes "is the following"
    ∷ []

unfoldable pub categorize : (Text → Text → Bool) → (Text → Text) → Text → ThresholdCategory
unfolding strip is_space
categorize search lower prompt =
    let text = strip is_space (lower prompt) in
    if search creative_re text
    then creative
    else if any (λ k. is_in k text) programming_keywords
    then programming
    else if any (λ k. is_in k text) classification_keywords
    then classification
    else general

module _ {F : Type 0} ⦃f : Float F⦄ where
  -- `min(a, b)` and `max(a, b)` return the first argument unless the second is beyond it.
  abbrev pub min_of : F → F → F
  min_of a b = if f.lt b a then b else a

  abbrev pub max_of : F → F → F
  max_of a b = if f.lt a b then b else a

  -- `CategoryPolicy(base, minimum, maximum, step)`: `__post_init__` starts from the base.
  unfoldable pub category_policy : (base minimum maximum step : F) → CategoryPolicy F
  category_policy base minimum maximum step = record {
    base = base;
    minimum = minimum;
    maximum = maximum;
    step = step;
    current = base;
  }

  unfoldable pub adjust : F → CategoryPolicy F → CategoryPolicy F
  adjust delta p = record p {
    current = min_of p.maximum (max_of p.minimum (f.add p.current delta));
  }

  unfoldable pub default_policies : Policies F
  unfolding category_policy
  default_policies =
      (
        classification,
        category_policy (f.ratio 91 100) (f.ratio 88 100) (f.ratio 95 100) (f.ratio 5 1000),
      )
      ∷ (
        programming,
        category_policy (f.ratio 95 100) (f.ratio 93 100) (f.ratio 98 100) (f.ratio 5 1000),
      )
      ∷ (
        creative,
        category_policy (f.ratio 985 1000) (f.ratio 97 100) (f.ratio 995 1000) (f.ratio 5 1000),
      )
      ∷ (
        general,
        category_policy (f.ratio 95 100) (f.ratio 92 100) (f.ratio 98 100) (f.ratio 5 1000),
      )
      ∷ []

  -- `self._policies[category]`.
  unfoldable pub policy_of : ThresholdCategory → Policies F → Result (CategoryPolicy F)
  unfolding is_category
  policy_of c [] = raise key_error
  policy_of c ((d, p) ∷ ps) = if is_category d c then ok p else policy_of c ps

  -- `-step` is `0.0 - step`.
  unfoldable pub delta_of : Bool → CategoryPolicy F → F
  delta_of false_hit p = if false_hit then p.step else f.sub (f.ratio 0 1) p.step

  -- The policy is mutated where it stands.
  unfoldable pub record_feedback : ThresholdCategory → Bool → Exec (Policies F) F
  unfolding is_category adjust delta_of
  record_feedback c false_hit [] = (raise key_error, [])
  record_feedback c false_hit ((d, p) ∷ ps) =
      let rest = record_feedback c false_hit ps in
      let adjusted = adjust (delta_of false_hit p) p in
      if is_category d c
      then (ok adjusted.current, (d, adjusted) ∷ ps)
      else (rest.0, (d, p) ∷ rest.1)

  unfoldable pub threshold_for_prompt :
      (Text → Text → Bool) → (Text → Text) → Text → Policies F → Result F
  unfolding policy_of categorize
  threshold_for_prompt search lower prompt ps =
      elim (policy_of (categorize search lower prompt) ps) [
        | ok p ↦ ok p.current
        | raise e ↦ raise e
      ]

  -- `build_threshold_policy`.
  unfoldable pub threshold_policy :
      (Text → Text → Bool) → (Text → Text) → ChatCompletionRequest F → Policies F → Result F
  unfolding threshold_for_prompt latest_user_prompt
  threshold_policy search lower request ps =
      threshold_for_prompt search lower (latest_user_prompt request) ps

-- `category.value`.
unfoldable pub category_value : ThresholdCategory → Text
category_value classification = codes "classification"
category_value programming = codes "programming"
category_value creative = codes "creative"
category_value general = codes "general"

unfoldable pub snapshot : {F : Type 0} → Policies F → Dict F
unfolding category_value
snapshot [] = []
snapshot ((c, p) ∷ ps) = (category_value c, p.current) ∷ snapshot ps
