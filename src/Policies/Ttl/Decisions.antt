-- ===== src/Policies/Ttl/Decisions.antt =====
-- What the classifier decides, and what the policy makes of it.
use llm_semantic_caching_lay.Prelude.{
  ◌⊎◌, ◌≡◌, ◌↔◌, refl, ap, inl, inr, Bool, true, false, Bool-cases, Option-cases, ◌∙◌, Option, none,
  some, List, [], ◌∷◌, ◌++◌, any, arith, Text, codes, strip, is_space, is_in, if◌then◌else◌,
}
use llm_semantic_caching_lay.Prelude.Int.{ℤ, pos, ltb_ℤ}
use llm_semantic_caching_lay.Models.Chat.{
  ChatCompletionRequest, ChatCompletionResponse, latest_user_prompt,
}
use llm_semantic_caching_lay.Policies.Ttl.{
  TtlClass, long, short, no_cache, TtlClassifier, tag, value, no_cache_patterns, short_keywords,
  first_found, classify, cache_tags_of, ttl_policy,
}

-- The tags that a request brings, none where it has no list of them.
abbrev pub own_tags : {F : Type 0} → ChatCompletionRequest F → List Text
own_tags request = or_none request.cache_tags
  where
    or_none : Option (List Text) → List Text
    or_none none = []
    or_none (some tags) = tags

own_tags_lem :
    {F : Type 0} (request : ChatCompletionRequest F) → cache_tags_of request ≡ own_tags request
unfolding cache_tags_of
own_tags_lem request = elim (Option-cases request.cache_tags) [
  | inl e ↦ rw (cache_tags_of, e) refl
  | inr (tags, e) ↦ rw (cache_tags_of, e) refl
]

module _ (finds : Text → Text → Bool) (lower : Text → Text) (c : TtlClassifier) where
  -- Some pattern of volatile prompts is found in a prompt.
  abbrev pub is_volatile : Text → Bool
  is_volatile prompt = any (λ p. finds p (strip is_space (lower prompt))) no_cache_patterns

  abbrev pub is_time_sensitive : Text → Bool
  is_time_sensitive prompt = any (λ k. is_in k (strip is_space (lower prompt))) short_keywords

  first_found-any :
      (ps : List Text) (text : Text)
      → ((first_found finds ps text ≡ none) × (any (λ p. finds p text) ps ≡ false))
        ⊎ ((p : Text) × (first_found finds ps text ≡ some p) × (any (λ p. finds p text) ps ≡ true))
  unfolding first_found any
  first_found-any [] text = inl (refl, refl)
  first_found-any (p ∷ ps) text = elim (Bool-cases (finds p text)) [
    | inl found ↦ inr (p, rw found refl, rw found refl)
    | inr not_found ↦ elim (first_found-any ps text) [
      | inl (a, b) ↦ inl (rw not_found a, rw not_found b)
      | inr (q, a, b) ↦ inr (q, rw not_found a, rw not_found b)
    ]
  ]

  abbrev pub expected_class : Text → TtlClass
  expected_class prompt =
      if is_volatile prompt then no_cache else if is_time_sensitive prompt then short else long

  abbrev pub expected_ttl : Text → ℤ
  expected_ttl prompt =
      if is_volatile prompt
      then pos 0
      else if is_time_sensitive prompt
      then c.short_ttl
      else c.long_ttl

  classify_lem :
      (prompt : Text)
      → ((classify finds lower c prompt).ttl_class ≡ expected_class prompt)
        × ((classify finds lower c prompt).ttl_seconds ≡ expected_ttl prompt)
  unfolding classify
  classify_lem prompt = elim (first_found-any no_cache_patterns (strip is_space (lower prompt))) [
    | inl (a, b) ↦ elim (Bool-cases (is_time_sensitive prompt)) [
      | inl timely ↦ (rw (classify, a, b, timely) refl, rw (classify, a, b, timely) refl)
      | inr stable ↦ (rw (classify, a, b, stable) refl, rw (classify, a, b, stable) refl)
    ]
    | inr (p, a, b) ↦ (rw (classify, a, b) refl, rw (classify, a, b) refl)
  ]

  -- The policy's answer for a request: its time to live and its tags.
  pub record IsDecided {F : Type 0} (request : ChatCompletionRequest F) (answer : ℤ × List Text)
      : Type 0 where
    pub ttl : answer.0 ≡ expected_ttl (latest_user_prompt request)
    pub tags :
        answer.1
        ≡ own_tags request
          ++ ((codes "ttl:" ++ value (expected_class (latest_user_prompt request))) ∷ [])
    pub cached :
        (ltb_ℤ (pos 0) answer.0 ≡ true) ↔ (is_volatile (latest_user_prompt request) ≡ false)

  -- With two positive times to live, the policy answers for the latest prompt of the user: 0 if a
  -- volatile pattern is found in it, else the short time if it has a time-sensitive keyword, else
  -- the long one; so the answer is cached exactly when no volatile pattern is found. The tags are
  -- those of the request, and the tag of the class behind them.
  pub ttl_policy-IsDecided :
      {F : Type 0} (request : ChatCompletionRequest F) (response : ChatCompletionResponse F)
      → ltb_ℤ (pos 0) c.long_ttl ≡ true
      → ltb_ℤ (pos 0) c.short_ttl ≡ true
      → IsDecided request (ttl_policy finds lower c request response)
  unfolding ttl_policy tag
  ttl_policy-IsDecided request response long_pos short_pos =
      let prompt = latest_user_prompt request in
      record {
        ttl = (classify_lem prompt).1;
        tags =
            ap (λ own. own ++ (tag (classify finds lower c prompt) ∷ [])) (own_tags_lem request)
            ∙ ap (λ k. own_tags request ++ ((codes "ttl:" ++ value k) ∷ []))
                (classify_lem prompt).0;
        cached = ground (arith, (classify_lem prompt).1);
      }
