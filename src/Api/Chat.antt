-- ===== src/Api/Chat.antt =====
-- app/api/chat.py, and the error handler of app/main.py. A reply that streams holds the body, which
-- is read later.
pub mod Errors
use llm_semantic_caching_lay.Prelude.{
  ℕ, Option, none, some, List, [], ◌∷◌, ltb, Text, codes, Exec, Result, ok, raise, Error,
  provider_error, pure, ◌>>=◌, ◌>>◌, if◌then◌else◌,
}
use llm_semantic_caching_lay.Prelude.Dict.{Dict}
use llm_semantic_caching_lay.Float.{Float}
use llm_semantic_caching_lay.Models.Json.{Json, str, obj, empty, field}
use llm_semantic_caching_lay.Models.Chat.{ChatCompletionRequest}
use llm_semantic_caching_lay.Embeddings.{EmbeddingService}
use llm_semantic_caching_lay.Cache.VectorStore.{VectorStore}
use llm_semantic_caching_lay.Proxy.Service.{
  Completer, MetricsSink, Serializer, ProxyService, World, Readings, ProxyResult, complete,
}
use llm_semantic_caching_lay.Proxy.Service.Bodies.{Body, headers, stream}
use llm_semantic_caching_lay.Core.Http.{Reply}

pub data Content (F : Type 0) : Type 0 where
  json : Json F → Content F
  event_stream : Body F → Content F
  page : Text → Content F

-- `get_tenant` of app/api/dependencies.py.
unfoldable pub get_tenant : (Text → Option Text) → Text
get_tenant header = elim (header (codes "x-tenant-id")) [
  | some tenant ↦ tenant
  | none ↦ codes "default"
]

unfoldable pub cache_headers : {F : Type 0} ⦃f : Float F⦄ → ProxyResult F → Dict Text
unfolding headers
cache_headers result =
    headers result.cache_status result.similarity_score result.cache_latency_ms result.provider

-- 5xx provider errors are reported as 502.
unfoldable pub error_status : ℕ → ℕ
error_status status = if ltb status 500 then status else 502

unfoldable pub error_reply :
    {F : Type 0} → (message : Text) (status : ℕ) (provider : Text) → Reply (Content F)
unfolding error_status
error_reply message status provider = record {
  status = error_status status;
  headers = [];
  content = json (
      obj (
        field (codes "error")
          (obj (
            field (codes "message") (str message) (
              field (codes "type") (str (codes "provider_error"))
                (field (codes "provider") (str provider) empty))))
          empty));
}

-- `_provider_error_handler`: other exceptions are not handled here.
unfoldable pub handle_errors :
    {F : Type 0} → Result (Reply (Content F)) → Result (Reply (Content F))
unfolding error_reply
handle_errors (ok reply) = ok reply
handle_errors (raise (provider_error message status provider)) =
    ok (error_reply message status provider)
handle_errors (raise e) = raise e

module _ {F S M : Type 0} ⦃f : Float F⦄ (store : VectorStore F S) (embeddings : EmbeddingService F)
    (hexdigest : Text → Text) (metrics : MetricsSink F M) (completer : Completer F)
    (models : Serializer F) (service : ProxyService F) where
  unfoldable pub streamed :
      Readings F
      → (tenant : Text) → ChatCompletionRequest F
      → Exec (World F S M) (Reply (Content F))
  streamed readings tenant request = do
    s ← stream store embeddings hexdigest metrics completer models service readings tenant request
    pure (record { status = 200; headers = s.headers; content = event_stream s.body })

  unfoldable pub buffered :
      Readings F
      → (tenant : Text) → ChatCompletionRequest F
      → Exec (World F S M) (Reply (Content F))
  unfolding cache_headers
  buffered readings tenant request = do
    r ← complete store embeddings hexdigest metrics completer models service readings tenant request
    pure (record {
      status = 200;
      headers = cache_headers r;
      content = json (models.model_dump r.response);
    })

  unfoldable pub chat_completions :
      Readings F
      → (tenant : Text) → ChatCompletionRequest F
      → Exec (World F S M) (Reply (Content F))
  unfolding streamed buffered
  chat_completions readings tenant request =
      if request.stream then streamed readings tenant request else buffered readings tenant request

  -- The route behind the error handler.
  unfoldable pub respond :
      Readings F
      → (Text → Option Text)
      → ChatCompletionRequest F
      → Exec (World F S M) (Reply (Content F))
  unfolding get_tenant handle_errors
  respond readings header request w =
      let (reply, after) = chat_completions readings (get_tenant header) request w in
      (handle_errors reply, after)
