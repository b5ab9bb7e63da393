-- ===== src/Providers/Calls.antt =====
-- The completions of the three HTTP providers.
use llm_semantic_caching_lay.Prelude.{Text, codes, [], false, Result}
use llm_semantic_caching_lay.Prelude.Int.{ℤ}
use llm_semantic_caching_lay.Float.{Float}
use llm_semantic_caching_lay.Models.Json.{Json, Fields}
use llm_semantic_caching_lay.Models.Chat.{ChatCompletionRequest, ChatCompletionResponse}
use llm_semantic_caching_lay.Proxy.Streaming.{Pydantic}
use llm_semantic_caching_lay.Providers.Http.{HttpClient, Retry}
use llm_semantic_caching_lay.Providers.Http.Attempts.{IsRetry}
use llm_semantic_caching_lay.Providers.Http.Exchange.{Exchanged, retry-Exchanged}
use llm_semantic_caching_lay.Providers.Compatible.{path, payload}
use llm_semantic_caching_lay.Providers.Anthropic.{to_anthropic_payload, to_openai_response}
use llm_semantic_caching_lay.Providers.Anthropic
use llm_semantic_caching_lay.Providers.OpenAi
use llm_semantic_caching_lay.Providers.Ollama

module _ {F N : Type 0} ⦃f : Float F⦄ (client : HttpClient F N)
    (retry : Retry N (ChatCompletionResponse F)) (lawful : IsRetry retry)
    (request : ChatCompletionRequest F) (s : N) where
  -- `complete` of the providers for OpenAI and Ollama and of that for Anthropic posts its payload
  -- once, and again after a transport error, three times at most. It returns the conversion of the
  -- first response whose status is below 400, and raises a provider error that has the status and
  -- the provider's name for another; any other exception of the client ends it, and so does the
  -- third transport error. `tenacity` is taken to make one attempt or, on a transport error with
  -- attempts left, one and then the rest.
  pub complete-Exchanged :
      (upstream_payload : ChatCompletionRequest F → Fields F)
      (validate : Json F → Result (ChatCompletionResponse F)) (fields : Pydantic F)
      (api_key version drawn_id : Text) (time : ℤ)
      → Exchanged
          (client.post path (OpenAi.bearer api_key) (payload upstream_payload false request))
          (codes "openai")
          validate
          s
          (OpenAi.complete client retry upstream_payload validate api_key request s)
        × Exchanged
            (client.post path [] (payload upstream_payload false request))
            (codes "ollama")
            validate
            s
            (Ollama.complete client retry upstream_payload validate request s)
        × Exchanged
            (client.post
              (codes "/messages")
              (Anthropic.headers client retry fields api_key version)
              (to_anthropic_payload request))
            (codes "anthropic")
            (λ body. to_openai_response fields drawn_id time body request.model)
            s
            (Anthropic.complete client retry fields api_key version drawn_id time request s)
  unfolding OpenAi.complete OpenAi.complete_once Ollama.complete Ollama.complete_once
      Anthropic.complete Anthropic.complete_once
  complete-Exchanged upstream_payload validate fields api_key version drawn_id time = (
    retry-Exchanged
        (client.post path (OpenAi.bearer api_key) (payload upstream_payload false request))
        (codes "openai") validate retry lawful s,
    retry-Exchanged (client.post path [] (payload upstream_payload false request)) (codes "ollama")
        validate retry lawful s,
    retry-Exchanged
        (client.post (codes "/messages") (Anthropic.headers client retry fields api_key version)
          (to_anthropic_payload request))
        (codes "anthropic") (λ body. to_openai_response fields drawn_id time body request.model)
        retry lawful s,
  )
