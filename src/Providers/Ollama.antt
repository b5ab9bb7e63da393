-- ===== src/Providers/Ollama.antt =====
-- app/providers/ollama.py. `upstream_payload` and `validate` stand for the models' `model_dump` and
-- `model_validate`, `retry` for the decorator's retries.
use llm_semantic_caching_lay.Prelude.{false, true, List, [], Text, codes, Result, Error, Option}
use llm_semantic_caching_lay.Models.Json.{Json, Fields}
use llm_semantic_caching_lay.Models.Chat.{ChatCompletionRequest, ChatCompletionResponse}
use llm_semantic_caching_lay.Providers.Http.{
  Sent, HttpClient, Retry, outcome, attempt, read_response,
}
use llm_semantic_caching_lay.Providers.Compatible.{path, payload, read_stream}

module _ {F N : Type 0} (client : HttpClient F N) (retry : Retry N (ChatCompletionResponse F))
    (upstream_payload : ChatCompletionRequest F → Fields F)
    (validate : Json F → Result (ChatCompletionResponse F)) where
  -- The body of `complete`, which the decorator calls.
  unfoldable pub complete_once : ChatCompletionRequest F → N → Sent (ChatCompletionResponse F) × N
  unfolding attempt read_response payload
  complete_once request =
      attempt (client.post path [] (payload upstream_payload false request))
        (read_response (codes "ollama") validate)

  unfoldable pub complete : ChatCompletionRequest F → N → Result (ChatCompletionResponse F) × N
  unfolding outcome
  complete request s =
      let (sent, after) = retry 3 (complete_once request) s in (outcome sent, after)

  unfoldable pub stream : ChatCompletionRequest F → N → (List Text × Option Error) × N
  unfolding read_stream payload
  stream request s =
      let (sent, after) = client.stream path [] (payload upstream_payload true request) s in
      (read_stream (codes "ollama") sent, after)
