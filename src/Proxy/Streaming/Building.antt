-- ===== src/Proxy/Streaming/Building.antt =====
-- app/proxy/streaming.py: `build_response`. The time and the identifier that it may draw are
-- arguments.
use llm_semantic_caching_lay.Prelude.{
  ◌/◌, max, none, some, List, [], ◌∷◌, ◌++◌, length, ◌||◌, Text, codes, text_eq, Result, ok, raise,
  attribute_error, type_error, and_then, if◌then◌else◌,
}
use llm_semantic_caching_lay.Prelude.Int.{ℤ, pos}
use llm_semantic_caching_lay.Float.{Float}
use llm_semantic_caching_lay.Models.Json.{Json, str, obj, Fields, empty, field, is_true}
use llm_semantic_caching_lay.Models.Chat.{Role, CompletionUsage, ChatCompletionResponse}
use llm_semantic_caching_lay.Proxy.Streaming.{StreamAssembler, Pydantic}

module _ {F : Type 0} where
  -- `"".join(parts)`, of texts only.
  unfoldable pub join_parts : List (Json F) → Result Text
  join_parts [] = ok []
  join_parts (str s ∷ ps) = and_then (join_parts ps) (λ rest. ok (s ++ rest))
  join_parts (_ ∷ ps) = raise type_error

  -- The fields of a usage that the model has.
  unfoldable pub usage_fields : Fields F → Fields F
  usage_fields empty = empty
  usage_fields (field k v d) =
      let rest = usage_fields d in
      if text_eq k (codes "prompt_tokens")
        || text_eq k (codes "completion_tokens")
        || text_eq k (codes "total_tokens")
      then field k v rest
      else rest

  unfoldable pub given_usage : Pydantic F → Json F → Result (CompletionUsage F)
  unfolding usage_fields
  given_usage p (obj d) = p.usage_value (usage_fields d)
  given_usage p _ = raise attribute_error

  -- Four characters for a token, and one token at least.
  unfoldable pub estimated_usage : Text → CompletionUsage F
  estimated_usage content = record {
    prompt_tokens = pos 0;
    completion_tokens = pos (max 1 (length content / 4));
    total_tokens = pos (max 1 (length content / 4));
    extra = empty;
  }

module _ {F : Type 0} ⦃f : Float F⦄ where
  -- `value or default`, where the default is valid.
  abbrev or_drawn : {A : Type 0} → (Json F → Result A) → Json F → A → Result A
  or_drawn valid v drawn = if is_true v then valid v else ok drawn

  unfoldable pub build_response :
      Pydantic F
      → (drawn_id : Text) (time : ℤ) → StreamAssembler F
      → Result (ChatCompletionResponse F)
  unfolding join_parts given_usage estimated_usage is_true
  build_response p drawn_id time s =
      let a = s.assembled in
      and_then (join_parts a.content_parts) (λ content.
        and_then (if is_true a.usage then given_usage p a.usage else ok (estimated_usage content))
          (λ usage. and_then (or_drawn p.str_value a.finish_reason (codes "stop")) (λ finish_reason.
            and_then (or_drawn p.str_value a.id drawn_id) (λ id.
              and_then (or_drawn p.int_value a.created time) (λ created. ok (record {
                id = id;
                object = codes "chat.completion";
                created = created;
                model = s.model;
                choices =
                    record {
                      index = pos 0;
                      message = record {
                        role = Role.assistant;
                        content = some content;
                        name = none;
                        extra = empty;
                      };
                      finish_reason = some finish_reason;
                      extra = empty;
                    }
                    ∷ [];
                usage = usage;
                extra = empty;
              }))))))
