-- ===== src/Providers/Base.antt =====
-- app/providers/base.py: the `stream` that a provider has by default, which the Anthropic provider
-- keeps. `dumps` stands for `orjson.dumps`.
use llm_semantic_caching_lay.Prelude.{
  Option, none, some, List, [], Text, Result, ok, raise, Error, and_then,
}
use llm_semantic_caching_lay.Models.Json.{Json}
use llm_semantic_caching_lay.Models.Chat.{ChatCompletionResponse}
use llm_semantic_caching_lay.Proxy.Streaming.Rendering.{response_to_sse}

-- Chunks that are all at hand, or an exception before the first.
abbrev pub yield_all : Result (List Text) → List Text × Option Error
yield_all (ok chunks) = (chunks, none)
yield_all (raise e) = ([], some e)

-- The full completion, rendered.
unfoldable pub stream :
    {F : Type 0}
    → (Json F → Result Text)
    → Result (ChatCompletionResponse F)
    → List Text × Option Error
unfolding response_to_sse
stream dumps completed = yield_all (and_then completed (response_to_sse dumps))
