-- ===== src/Providers/Router/Dispatch.antt =====
-- Which provider serves a request.
use llm_semantic_caching_lay.Prelude.{
  ◌≡◌, refl, ap, inl, inr, Bool-cases, Option-cases, none, some, true, false, List, [], ◌∷◌, ◌++◌,
  All, Text, Result, raise, provider_error,
}
use llm_semantic_caching_lay.Prelude.Dict
use llm_semantic_caching_lay.Models.Chat.{ChatCompletionRequest, ChatCompletionResponse}
use llm_semantic_caching_lay.Providers.Router.{
  ChatProvider, Rule, ProviderRouter, first_rule, resolve_provider, missing, provider_for, complete,
}

-- The provider's name that ordered rules give for a model name: that of the first rule that admits
-- it, or the default.
pub data Selected (rules : List Rule) (default m : Text) (name : Text) : Type 0 where
  by_rule :
      (before after : List Rule) (rule : Rule)
      → rules ≡ before ++ (rule ∷ after)
      → All (λ q. q.0 m ≡ false) before
      → rule.0 m ≡ true
      → name ≡ rule.1
      → Selected rules default m name
  by_default : All (λ q. q.0 m ≡ false) rules → name ≡ default → Selected rules default m name

first_rule-Selected :
    (rules : List Rule) (default m : Text) → Selected rules default m (first_rule rules default m)
unfolding first_rule
first_rule-Selected [] default m = by_default tt refl
first_rule-Selected ((predicate, provider) ∷ rules) default m = elim (Bool-cases (predicate m)) [
  | inl admits ↦ rw admits (by_rule [] rules (predicate, provider) refl tt admits refl)
  | inr refuses ↦ rw refuses (elim (first_rule-Selected rules default m) [
    | by_rule before after rule e none_before admits name ↦
        by_rule ((predicate, provider) ∷ before) after rule (ap (λ q. (predicate, provider) ∷ q) e)
          (refuses, none_before) admits name
    | by_default none_admits name ↦ by_default (refuses, none_admits) name
  ])
]

module _ {F : Type 0} (lower : Text → Text) where
  -- What a completion comes to.
  pub data Dispatched (r : ProviderRouter F) (request : ChatCompletionRequest F)
      (answer : Result (ChatCompletionResponse F)) : Type 0 where
    called :
        (name : Text) (provider : ChatProvider F)
        → Selected r.rules r.default (lower request.model) name
        → Dict.get r.providers name ≡ some provider
        → answer ≡ provider.complete request
        → Dispatched r request answer
    not_configured :
        (name : Text)
        → Selected r.rules r.default (lower request.model) name
        → Dict.get r.providers name ≡ none
        → answer ≡ raise (provider_error (missing name request.model) 400 name)
        → Dispatched r request answer

  -- The router's completion is that of the provider named by the first rule that admits the model
  -- name, or by the default if no rule does; if that provider is not configured, it is a provider
  -- error with status 400 that names it.
  pub complete-Dispatched :
      (r : ProviderRouter F) (request : ChatCompletionRequest F)
      → Dispatched r request (complete lower r request)
  unfolding complete provider_for resolve_provider
  complete-Dispatched r request =
      let m = lower request.model in
      let name = first_rule r.rules r.default m in
      let selected = first_rule-Selected r.rules r.default m in
      elim (Option-cases (Dict.get r.providers name)) [
        | inl absent ↦
            not_configured name selected absent
              (rw (complete, provider_for, resolve_provider, absent) refl)
        | inr (provider, present) ↦
            called name provider selected present
              (rw (complete, provider_for, resolve_provider, present) refl)
      ]
