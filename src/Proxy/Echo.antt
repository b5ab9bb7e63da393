-- ===== src/Proxy/Echo.antt =====
-- app/proxy/echo.py: the completer that answers with the prompt. The identifier and the time that a
-- response draws are arguments.
use llm_semantic_caching_lay.Prelude.{
  ◌+◌, ◌/◌, max, none, some, List, [], ◌∷◌, ◌++◌, length, Text, codes, Result, ok, Option, Error,
}
use llm_semantic_caching_lay.Prelude.Int.{ℤ, pos}
use llm_semantic_caching_lay.Models.Json.{Json, Fields}
use llm_semantic_caching_lay.Models.Chat.{
  Role, ChatCompletionRequest, ChatCompletionResponse, latest_user_prompt,
}
use llm_semantic_caching_lay.Providers.Base

module _ {F : Type 0} where
  unfoldable pub resolve_provider : ChatCompletionRequest F → Text
  resolve_provider request = codes "echo"

  unfoldable pub complete :
      (drawn_id : Text) (time : ℤ) → ChatCompletionRequest F → ChatCompletionResponse F
  unfolding latest_user_prompt
  complete drawn_id time request =
      let prompt = latest_user_prompt request in
      let completion = codes "[echo:" ++ (request.model ++ (codes "] " ++ prompt)) in
      let prompt_tokens = max 1 (length prompt / 4) in
      let completion_tokens = max 1 (length completion / 4) in
      record {
        id = drawn_id;
        object = codes "chat.completion";
        created = time;
        model = request.model;
        choices =
            record {
              index = pos 0;
              message = record {
                role = Role.assistant;
                content = some completion;
                name = none;
                extra = Fields.empty;
              };
              finish_reason = some (codes "stop");
              extra = Fields.empty;
            }
            ∷ [];
        usage = record {
          prompt_tokens = pos prompt_tokens;
          completion_tokens = pos completion_tokens;
          total_tokens = pos (prompt_tokens + completion_tokens);
          extra = Fields.empty;
        };
        extra = Fields.empty;
      }

  unfoldable pub stream :
      (Json F → Result Text)
      → (drawn_id : Text) (time : ℤ) → ChatCompletionRequest F
      → List Text × Option Error
  stream dumps drawn_id time request = Base.stream dumps (ok (complete drawn_id time request))
