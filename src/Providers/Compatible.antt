-- ===== src/Providers/Compatible.antt =====
-- app/providers/openai.py and ollama.py: the providers that speak the proxy's own format.
-- `upstream_payload` stands for the model's `model_dump` without `None` and without `cache_tags`.
use llm_semantic_caching_lay.Prelude.{
  Bool, Option, some, List, [], leb, keep, Text, codes, truthy, text_eq, Error, failure,
  if◌then◌else◌,
}
use llm_semantic_caching_lay.Models.Json.{Json, boolean, obj, Fields, empty, field}
use llm_semantic_caching_lay.Models.Chat.{ChatCompletionRequest}
use llm_semantic_caching_lay.Providers.Http.{
  Sent, answered, transport_error, failed, Streamed, refusal,
}

-- `payload[k] = v`.
unfoldable pub set : {F : Type 0} → Fields F → Text → Json F → Fields F
set empty k v = field k v empty
set (field j w d) k v = let rest = set d k v in if text_eq j k then field j v d else field j w rest

abbrev pub path : Text
path = codes "/chat/completions"

-- Chunks that are empty are not passed on. What is not answered raises.
unfoldable pub read_stream : Text → Sent Streamed → List Text × Option Error
unfolding refusal
read_stream name (transport_error m) = ([], some (failure m))
read_stream name (failed e) = ([], some e)
read_stream name (answered r) =
    if leb 400 r.status_code
    then ([], some (refusal name (codes " stream") r.status_code r.shown_body))
    else (keep truthy r.chunks.0, r.chunks.1)

module _ {F : Type 0} where
  -- The request's payload, with its `stream` field.
  unfoldable pub payload :
      (ChatCompletionRequest F → Fields F) → Bool → ChatCompletionRequest F → Json F
  unfolding set
  payload upstream_payload streamed request =
      obj (set (upstream_payload request) (codes "stream") (boolean streamed))
