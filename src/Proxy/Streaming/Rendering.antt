-- ===== src/Proxy/Streaming/Rendering.antt =====
-- app/proxy/streaming.py: `_sse` and `response_to_sse`. `dumps` stands for `orjson.dumps`, which
-- raises for what is not JSON, and the bytes of an event are lists of numbers.
pub mod Events
pub mod Replay
pub mod ReadBack
use llm_semantic_caching_lay.Prelude.{
  Option, none, some, List, [], ◌∷◌, ◌++◌, Text, codes, Result, ok, and_then,
}
use llm_semantic_caching_lay.Prelude.Int.{pos}
use llm_semantic_caching_lay.Models.Json.{
  Json, null, int, str, arr, obj, nil, cons, Fields, empty, field,
}
use llm_semantic_caching_lay.Models.Chat.{ChatCompletionResponse, first_text}

-- `_DONE`.
abbrev pub done : Text
done = codes "data: [DONE]\n\n"

module _ {F : Type 0} where
  -- A value that may be `None`.
  unfoldable pub optional : Option Text → Json F
  optional none = null
  optional (some s) = str s

  -- `{**base, "choices": [{"index": 0, "delta": delta, "finish_reason": finish}]}`.
  unfoldable pub chunk : ChatCompletionResponse F → Fields F → Json F → Json F
  chunk r delta finish = obj (
      field (codes "id") (str r.id) (
        field (codes "object") (str (codes "chat.completion.chunk")) (
          field (codes "created") (int r.created) (
            field (codes "model") (str r.model) (
              field (codes "choices")
                (arr (
                  cons
                    (obj (
                      field (codes "index") (int (pos 0)) (
                        field (codes "delta") (obj delta)
                          (field (codes "finish_reason") finish empty))))
                    nil))
                empty)))))

  unfoldable pub role_chunk : ChatCompletionResponse F → Json F
  unfolding chunk
  role_chunk r = chunk r (field (codes "role") (str (codes "assistant")) empty) null

  unfoldable pub content_chunk : ChatCompletionResponse F → Json F
  unfolding chunk
  content_chunk r = chunk r (field (codes "content") (str (first_text r)) empty) null

  -- `response.choices[0].finish_reason if response.choices else "stop"`.
  unfoldable pub finish_of : ChatCompletionResponse F → Option Text
  finish_of r = elim r.choices [ [] ↦ some (codes "stop") | c ∷ cs ↦ c.finish_reason ]

  unfoldable pub final_chunk : ChatCompletionResponse F → Json F
  unfolding chunk
  final_chunk r = chunk r empty (optional (finish_of r))

  module _ (dumps : Json F → Result Text) where
    unfoldable pub sse : Json F → Result Text
    sse value = and_then (dumps value) (λ written. ok (codes "data: " ++ (written ++ codes "\n\n")))

    unfoldable pub response_to_sse : ChatCompletionResponse F → Result (List Text)
    response_to_sse r = and_then (sse (role_chunk r)) (λ role.
        and_then (sse (content_chunk r)) (λ content.
          and_then (sse (final_chunk r)) (λ final. ok (role ∷ content ∷ final ∷ done ∷ []))))
