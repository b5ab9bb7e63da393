-- ===== src/Providers/Anthropic.antt =====
-- app/providers/anthropic.py: the translation to and from Anthropic's Messages API, and `complete`.
-- `Pydantic` stands for the models' validation of fields; the identifier and the time that a
-- response may draw are arguments.
pub mod Translation
use llm_semantic_caching_lay.Prelude.{
  Bool, true, false, ◌&&◌, ◌||◌, Option, none, some, List, [], ◌∷◌, ◌++◌, map, keep, ◌==◌, Text,
  codes, text_eq, truthy, Result, ok, raise, Error, type_error, and_then, if◌then◌else◌,
}
use llm_semantic_caching_lay.Prelude.Int.{ℤ, pos, ◌+ℤ◌}
use llm_semantic_caching_lay.Prelude.Dict.{Dict}
use llm_semantic_caching_lay.Float.{Float}
use llm_semantic_caching_lay.Models.Json.{
  Json, null, boolean, int, float, str, arr, obj, Items, nil, cons, Fields, empty, field, get_of,
  or_default, iterate,
}
use llm_semantic_caching_lay.Models.Json.Order.{whole}
use llm_semantic_caching_lay.Models.Chat.{
  Role, is_role, ChatMessage, ChatCompletionRequest, ChatCompletionResponse, or_empty,
  system_prompt,
}
use llm_semantic_caching_lay.Proxy.Streaming.{Pydantic}
use llm_semantic_caching_lay.Proxy.Streaming.Building.{join_parts}
use llm_semantic_caching_lay.Providers.Http.{
  Sent, HttpClient, Retry, outcome, attempt, read_response,
}

-- A role as the models write it.
unfoldable pub role_value : Role → Text
role_value Role.system = codes "system"
role_value Role.user = codes "user"
role_value Role.assistant = codes "assistant"
role_value Role.tool = codes "tool"
role_value Role.function = codes "function"

-- `request.max_tokens or _DEFAULT_MAX_TOKENS`.
unfoldable pub token_limit : Option ℤ → ℤ
token_limit none = pos 1024
token_limit (some (pos n)) = if n == 0 then pos 1024 else pos n
token_limit (some z) = z

-- `_FINISH_REASON`.
unfoldable pub finish_reasons : Text → Text
unfolding text_eq
finish_reasons reason =
    if text_eq reason (codes "end_turn")
    then codes "stop"
    else if text_eq reason (codes "stop_sequence")
    then codes "stop"
    else if text_eq reason (codes "max_tokens")
    then codes "length"
    else if text_eq reason (codes "tool_use")
    then codes "tool_calls"
    else codes "stop"

module _ {F : Type 0} where
  unfoldable pub to_items : List (Json F) → Items F
  to_items [] = nil
  to_items (v ∷ vs) = cons v (to_items vs)

  abbrev pub is_turn : ChatMessage F → Bool
  is_turn m = is_role m.role Role.user || is_role m.role Role.assistant

  unfoldable pub to_message : ChatMessage F → Json F
  unfolding role_value or_empty
  to_message m = obj (
      field (codes "role") (str (role_value m.role))
        (field (codes "content") (str (or_empty m.content)) empty))

  unfoldable pub system_field : Option Text → Fields F
  system_field none = empty
  system_field (some s) = if truthy s then field (codes "system") (str s) empty else empty

  unfoldable pub to_anthropic_payload : ChatCompletionRequest F → Json F
  unfolding to_items to_message token_limit system_field is_role
  to_anthropic_payload request = obj (
      field (codes "model") (str request.model) (
        field (codes "messages") (arr (to_items (map to_message (keep is_turn request.messages)))) (
          field (codes "max_tokens") (int (token_limit request.max_tokens)) (
            field (codes "temperature") (float request.temperature)
              (system_field (system_prompt request))))))

  -- `block.get("type") == "text"`.
  unfoldable pub is_text_kind : Option (Json F) → Bool
  unfolding text_eq
  is_text_kind (some (str s)) = text_eq s (codes "text")
  is_text_kind _ = false

  -- The texts of the blocks of type `text`.
  unfoldable pub block_texts : List (Json F) → Result (List (Json F))
  unfolding is_text_kind get_of or_default
  block_texts [] = ok []
  block_texts (block ∷ blocks) =
      let rest = block_texts blocks in
      and_then (get_of block (codes "type")) (λ kind.
        if is_text_kind kind
        then and_then (get_of block (codes "text"))
            (λ text. and_then rest (λ texts. ok (or_default text (str []) ∷ texts)))
        else rest)

  -- `_FINISH_REASON.get(reason, "stop")`, where a list or a dict cannot be a key.
  unfoldable pub finish_reason : Json F → Result Text
  unfolding finish_reasons
  finish_reason (str s) = ok (finish_reasons s)
  finish_reason (arr vs) = raise type_error
  finish_reason (obj d) = raise type_error
  finish_reason _ = ok (codes "stop")

  append_items : Items F → Items F → Items F
  append_items nil ws = ws
  append_items (cons v vs) ws = cons v (append_items vs ws)

module _ {F : Type 0} ⦃f : Float F⦄ where
  abbrev number : Json F → Option F
  number (int z) = some (f.of_int z)
  number (boolean true) = some (f.of_int (pos 1))
  number (boolean false) = some (f.of_int (pos 0))
  number (float x) = some x
  number _ = none

  abbrev add_numbers : Option F → Option F → Result (Json F)
  add_numbers (some x) (some y) = ok (float (f.add x y))
  add_numbers _ _ = raise type_error

  -- `v + w`.
  unfoldable pub plus : Json F → Json F → Result (Json F)
  unfolding append_items
  plus (str a) (str b) = ok (str (a ++ b))
  plus (arr a) (arr b) = ok (arr (append_items a b))
  plus v w = elim (whole v) [
    | none ↦ add_numbers (number v) (number w)
    | some i ↦ elim (whole w) [
      | none ↦ add_numbers (number v) (number w)
      | some j ↦ ok (int (i +ℤ j))
    ]
  ]

  -- `usage.get(k, 0)`.
  abbrev pub tokens : Json F → Text → Result (Json F)
  tokens usage k = and_then (get_of usage k) (λ v. ok (or_default v (int (pos 0))))

  unfoldable pub to_openai_response :
      Pydantic F
      → (drawn_id : Text) (time : ℤ) → Json F
      → (model : Text) → Result (ChatCompletionResponse F)
  unfolding get_of or_default iterate block_texts join_parts finish_reason plus
  to_openai_response p drawn_id time body model =
      and_then (get_of body (codes "content")) (λ content.
        and_then (iterate (or_default content (arr nil))) (λ blocks.
          and_then (block_texts blocks) (λ parts. and_then (join_parts parts) (λ text.
            and_then (get_of body (codes "usage")) (λ usage_given.
              let usage = or_default usage_given (obj empty) in
              and_then (get_of body (codes "id")) (λ id_given.
                and_then (get_of body (codes "model")) (λ model_given.
                  and_then (get_of body (codes "stop_reason")) (λ reason.
                    and_then (finish_reason (or_default reason (str []))) (λ finish.
                      and_then (tokens usage (codes "input_tokens")) (λ input.
                        and_then (tokens usage (codes "output_tokens")) (λ output.
                          and_then (plus input output) (λ total.
                            and_then
                              (p.usage_value (
                                field (codes "prompt_tokens") input (
                                  field (codes "completion_tokens") output
                                    (field (codes "total_tokens") total empty))))
                              (λ counted.
                                and_then (p.str_value (or_default id_given (str drawn_id))) (λ id.
                                  and_then (p.str_value (or_default model_given (str model)))
                                    (λ named. ok (record {
                                      id = id;
                                      object = codes "chat.completion";
                                      created = time;
                                      model = named;
                                      choices =
                                          record {
                                            index = pos 0;
                                            message = record {
                                              role = Role.assistant;
                                              content = some text;
                                              name = none;
                                              extra = empty;
                                            };
                                            finish_reason = some finish;
                                            extra = empty;
                                          }
                                          ∷ [];
                                      usage = counted;
                                      extra = empty;
                                    }))))))))))))))))

module _ {F N : Type 0} ⦃f : Float F⦄ (client : HttpClient F N)
    (retry : Retry N (ChatCompletionResponse F)) (fields : Pydantic F)
    (api_key version : Text) where
  -- `self._headers`.
  abbrev pub headers : Dict Text
  headers =
      (codes "x-api-key", api_key)
      ∷ (codes "anthropic-version", version)
      ∷ (codes "content-type", codes "application/json")
      ∷ []

  unfoldable pub complete_once :
      (drawn_id : Text) (time : ℤ)
      → ChatCompletionRequest F
      → N
      → Sent (ChatCompletionResponse F) × N
  unfolding attempt read_response to_anthropic_payload to_openai_response
  complete_once drawn_id time request =
      attempt (client.post (codes "/messages") headers (to_anthropic_payload request)) (
        read_response (codes "anthropic")
          (λ body. to_openai_response fields drawn_id time body request.model))

  unfoldable pub complete :
      (drawn_id : Text) (time : ℤ)
      → ChatCompletionRequest F
      → N
      → Result (ChatCompletionResponse F) × N
  unfolding outcome
  complete drawn_id time request s =
      let (sent, after) = retry 3 (complete_once drawn_id time request) s in (outcome sent, after)
