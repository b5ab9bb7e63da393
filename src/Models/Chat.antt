-- ===== src/Models/Chat.antt =====
-- app/models/chat.py: chat requests and responses. A model with `extra = allow` keeps the unknown
-- fields in `extra`.
use llm_semantic_caching_lay.Prelude.{
  Bool, true, false, ◌&&◌, Option, none, some, List, [], ◌∷◌, map, reverse, Text, codes, truthy,
  join, if◌then◌else◌, ◌⊎◌,
}
use llm_semantic_caching_lay.Prelude.Int.{ℤ}
use llm_semantic_caching_lay.Models.Json.{Fields}

pub data Role : Type 0 where
  system user assistant tool function : Role

unfoldable pub is_role : Role → Role → Bool
is_role system system = true
is_role user user = true
is_role assistant assistant = true
is_role tool tool = true
is_role function function = true
is_role _ _ = false

pub record ChatMessage (F : Type 0) : Type 0 where
  pub role : Role
  pub content : Option Text
  pub name : Option Text
  pub extra : Fields F

pub record ChatCompletionRequest (F : Type 0) : Type 0 where
  pub model : Text
  pub messages : List (ChatMessage F)
  pub temperature : F
  pub top_p : F
  pub max_tokens : Option ℤ
  pub n : ℤ
  pub stream : Bool
  pub stop : Option (Text ⊎ List Text)
  pub user : Option Text
  pub cache_tags : Option (List Text)
  pub extra : Fields F

pub record ChatCompletionChoice (F : Type 0) : Type 0 where
  pub index : ℤ
  pub message : ChatMessage F
  pub finish_reason : Option Text
  pub extra : Fields F

pub record CompletionUsage (F : Type 0) : Type 0 where
  pub prompt_tokens : ℤ
  pub completion_tokens : ℤ
  pub total_tokens : ℤ
  pub extra : Fields F

pub record ChatCompletionResponse (F : Type 0) : Type 0 where
  pub id : Text
  pub object : Text
  pub created : ℤ
  pub model : Text
  pub choices : List (ChatCompletionChoice F)
  pub usage : CompletionUsage F
  pub extra : Fields F

-- `content or ""`.
unfoldable pub or_empty : Option Text → Text
or_empty none = []
or_empty (some s) = s

module _ {F : Type 0} where
  -- The loop of `system_prompt`: the first system message decides, also if it has no content.
  unfoldable pub first_system : List (ChatMessage F) → Option Text
  unfolding is_role
  first_system [] = none
  first_system (m ∷ ms) = if is_role m.role Role.system then m.content else first_system ms

  unfoldable pub system_prompt : ChatCompletionRequest F → Option Text
  unfolding first_system
  system_prompt r = first_system r.messages

  -- The loop of `latest_user_prompt`, over the reversed messages.
  unfoldable pub first_user : List (ChatMessage F) → Option Text
  unfolding is_role or_empty
  first_user [] = none
  first_user (m ∷ ms) =
      if is_role m.role Role.user && truthy (or_empty m.content) then m.content else first_user ms

  unfoldable pub latest_user_prompt : ChatCompletionRequest F → Text
  unfolding first_user or_empty join
  latest_user_prompt r = elim (first_user (reverse r.messages)) [
    | some content ↦ content
    | none ↦ join (codes "\n") (map (λ m. or_empty m.content) r.messages)
  ]

  unfoldable pub first_text : ChatCompletionResponse F → Text
  unfolding or_empty
  first_text r = elim r.choices [ [] ↦ [] | c ∷ cs ↦ or_empty c.message.content ]
