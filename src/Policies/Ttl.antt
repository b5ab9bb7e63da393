-- ===== src/Policies/Ttl.antt =====
-- app/policies/ttl_classifier.py.
pub mod Decisions
use llm_semantic_caching_lay.Prelude.{
  Bool, true, false, Option, none, some, List, [], ◌∷◌, ◌++◌, any, Text, codes, is_in, strip,
  is_space, if◌then◌else◌,
}
use llm_semantic_caching_lay.Prelude.Int.{ℤ, pos}
use llm_semantic_caching_lay.Models.Chat.{
  ChatCompletionRequest, ChatCompletionResponse, latest_user_prompt,
}

pub data TtlClass : Type 0 where
  long short no_cache : TtlClass

unfoldable pub value : TtlClass → Text
value long = codes "long"
value short = codes "short"
value no_cache = codes "no_cache"

-- Why a class was chosen.
pub data Reason : Type 0 where
  matched_volatile_pattern : Text → Reason
  time_sensitive_keyword stable_knowledge_keyword default_stable : Reason

pub record TtlDecision : Type 0 where
  pub ttl_class : TtlClass
  pub ttl_seconds : ℤ
  pub reason : Reason

unfoldable pub cacheable : TtlDecision → Bool
cacheable d = elim d.ttl_class [ long ↦ true | short ↦ true | no_cache ↦ false ]

unfoldable pub tag : TtlDecision → Text
unfolding value
tag d = codes "ttl:" ++ value d.ttl_class

unfoldable pub no_cache_patterns : List Text
no_cache_patterns =
    codes "\\bright now\\b"
    ∷ codes "\\blive\\b"
    ∷ codes "\\bcurrently\\b"
    ∷ codes "\\bat this (moment|time)\\b"
    ∷ codes "\\bscore\\b.*\\b(game|match)\\b"
    ∷ codes "\\bbreaking news\\b"
    ∷ codes "\\bas of (today|now)\\b"
    ∷ []

unfoldable pub short_keywords : List Text
short_keywords =
    codes "stock price"
    ∷ codes "share price"
    ∷ codes "stock market"
    ∷ codes "exchange rate"
    ∷ codes "crypto"
    ∷ codes "bitcoin price"
    ∷ codes "weather"
    ∷ codes "forecast"
    ∷ codes "news"
    ∷ codes "headline"
    ∷ codes "today"
    ∷ codes "this week"
    ∷ codes "current events"
    ∷ codes "trending"
    ∷ codes "latest"
    ∷ []

unfoldable pub long_keywords : List Text
long_keywords =
    codes "what is"
    ∷ codes "what are"
    ∷ codes "who was"
    ∷ codes "who is"
    ∷ codes "explain"
    ∷ codes "define"
    ∷ codes "definition"
    ∷ codes "how does"
    ∷ codes "how do i"
    ∷ codes "difference between"
    ∷ codes "history of"
    ∷ codes "example of"
    ∷ codes "concept"
    ∷ codes "algorithm"
    ∷ codes "complexity"
    ∷ codes "python"
    ∷ codes "javascript"
    ∷ codes "sql"
    ∷ codes "regex"
    ∷ codes "function"
    ∷ codes "recursion"
    ∷ codes "data structure"
    ∷ []

-- The object's settings.
pub record TtlClassifier : Type 0 where
  pub long_ttl : ℤ
  pub short_ttl : ℤ

-- The loop over the patterns: the first one found.
unfoldable pub first_found : (Text → Text → Bool) → List Text → Text → Option Text
first_found finds [] text = none
first_found finds (p ∷ ps) text =
    let rest = first_found finds ps text in if finds p text then some p else rest

-- `list(request.cache_tags or [])`.
unfoldable pub cache_tags_of : {F : Type 0} → ChatCompletionRequest F → List Text
cache_tags_of r = elim r.cache_tags [ none ↦ [] | some tags ↦ tags ]

module _ (finds : Text → Text → Bool) (lower : Text → Text) (c : TtlClassifier) where
  unfoldable pub classify : Text → TtlDecision
  unfolding strip is_space
  classify prompt =
      let text = strip is_space (lower prompt) in
      elim (first_found finds no_cache_patterns text) [
        | some pattern ↦ record {
          ttl_class = no_cache;
          ttl_seconds = pos 0;
          reason = matched_volatile_pattern pattern;
        }
        | none ↦
            if any (λ k. is_in k text) short_keywords
            then record {
              ttl_class = short;
              ttl_seconds = c.short_ttl;
              reason = time_sensitive_keyword;
            }
            else record {
              ttl_class = long;
              ttl_seconds = c.long_ttl;
              reason =
                  if any (λ k. is_in k text) long_keywords
                  then stable_knowledge_keyword
                  else default_stable;
            }
      ]

  -- `build_ttl_policy`.
  unfoldable pub ttl_policy :
      {F : Type 0} → ChatCompletionRequest F → ChatCompletionResponse F → ℤ × List Text
  unfolding cache_tags_of
  ttl_policy request response =
      let decision = classify (latest_user_prompt request) in
      (decision.ttl_seconds, cache_tags_of request ++ (tag decision ∷ []))
