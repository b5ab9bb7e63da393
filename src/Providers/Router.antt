-- ===== src/Providers/Router.antt =====
-- app/providers/router.py. `lower` stands for `str.lower`.
pub mod Dispatch
use llm_semantic_caching_lay.Prelude.{
  ℕ, Bool, true, false, Option, none, some, List, [], ◌∷◌, ◌++◌, any, Text, codes, starts_with,
  Result, ok, raise, Error, provider_error, if◌then◌else◌,
}
use llm_semantic_caching_lay.Prelude.Dict
use llm_semantic_caching_lay.Prelude.Dict.{Dict}
use llm_semantic_caching_lay.Models.Chat.{ChatCompletionRequest, ChatCompletionResponse}

-- app/providers/base.py: a provider, as an object with its calls. A call may raise.
pub record ChatProvider (F : Type 0) : Type 0 where
  pub name : Text
  pub complete : ChatCompletionRequest F → Result (ChatCompletionResponse F)
  pub stream : ChatCompletionRequest F → List Text × Option Error

-- A predicate on the lowered model name, and the provider's name.
abbrev pub Rule : Type 0
Rule = (Text → Bool) × Text

unfoldable pub starts_with_any : List Text → Text → Bool
starts_with_any prefixes m = any (λ p. starts_with p m) prefixes

unfoldable pub default_rules : List Rule
default_rules =
    (
      starts_with_any
          (codes "gpt-" ∷ codes "o1" ∷ codes "o3" ∷ codes "chatgpt" ∷ codes "text-davinci" ∷ []),
      codes "openai",
    )
    ∷ (starts_with (codes "claude"), codes "anthropic")
    ∷ (
      starts_with_any (
          codes "llama"
          ∷ codes "mistral"
          ∷ codes "qwen"
          ∷ codes "gemma"
          ∷ codes "phi"
          ∷ codes "deepseek"
          ∷ []),
      codes "ollama",
    )
    ∷ []

pub record ProviderRouter (F : Type 0) : Type 0 where
  pub providers : Dict (ChatProvider F)
  pub rules : List Rule
  pub default : Text

-- The loop over the rules.
unfoldable pub first_rule : List Rule → Text → Text → Text
first_rule [] default m = default
first_rule ((predicate, provider) ∷ rules) default m =
    let rest = first_rule rules default m in if predicate m then provider else rest

unfoldable pub missing : Text → Text → Text
missing name model =
    codes "no provider configured for '" ++ (name ++ (codes "' (model=" ++ (model ++ codes ")")))

module _ {F : Type 0} (lower : Text → Text) where
  unfoldable pub resolve_provider : ProviderRouter F → ChatCompletionRequest F → Text
  unfolding first_rule
  resolve_provider r request = first_rule r.rules r.default (lower request.model)

  unfoldable pub provider_for : ProviderRouter F → ChatCompletionRequest F → Result (ChatProvider F)
  unfolding missing
  provider_for r request =
      let name = resolve_provider r request in
      elim (Dict.get r.providers name) [
        | none ↦ raise (provider_error (missing name request.model) 400 name)
        | some provider ↦ ok provider
      ]

  unfoldable pub complete :
      ProviderRouter F → ChatCompletionRequest F → Result (ChatCompletionResponse F)
  complete r request = elim (provider_for r request) [
    | ok provider ↦ provider.complete request
    | raise e ↦ raise e
  ]

  -- The chunks, and the exception that may end them.
  unfoldable pub stream : ProviderRouter F → ChatCompletionRequest F → List Text × Option Error
  stream r request = elim (provider_for r request) [
    | ok provider ↦ provider.stream request
    | raise e ↦ ([], some e)
  ]
