-- ===== src/Tests/Providing.antt =====
-- A provider behind a network that loses a request, and a message of Anthropic's API.
use llm_semantic_caching_lay.Prelude.{
  zero, suc, ◌≡◌, ◌≢◌, refl, ap, false, List, [], ◌∷◌, Text, codes, text_eq, ok, raise, type_error,
}
use llm_semantic_caching_lay.Prelude.Int.{ℤ, pos}
use llm_semantic_caching_lay.Float.Decimals.{decimals}
use llm_semantic_caching_lay.Models.Json.{
  Json, int, str, arr, obj, nil, cons, Fields, empty, field, get,
}
use llm_semantic_caching_lay.Proxy.Streaming.{Pydantic}
use llm_semantic_caching_lay.Providers.Http.{
  Response, Sent, answered, transport_error, failed, HttpClient, Retry,
}
use llm_semantic_caching_lay.Providers.Http.Attempts.{IsRetry}
use llm_semantic_caching_lay.Providers.Http.Exchange.{Exchanged}
use llm_semantic_caching_lay.Providers.Compatible.{path, payload}
use llm_semantic_caching_lay.Providers.Anthropic.{to_anthropic_payload, to_openai_response}
use llm_semantic_caching_lay.Providers.Anthropic.Translation.{
  Message, no_blocks, text_block, other_block, translated, IsValidating,
  to_openai_response-translated,
}
use llm_semantic_caching_lay.Providers.Anthropic
use llm_semantic_caching_lay.Providers.OpenAi
use llm_semantic_caching_lay.Providers.Ollama
use llm_semantic_caching_lay.Providers.Calls.{complete-Exchanged}
use llm_semantic_caching_lay.Tests.Serving.{request, response}

-- What the next calls give, and a lost call where there is none.
abbrev Network : Type 0
Network = List (Sent (Response ℤ))

next : Network → Sent (Response ℤ) × Network
next [] = (transport_error (codes "down"), [])
next (r ∷ rs) = (r, rs)

client : HttpClient ℤ Network
unfolding next
client = record {
  post = λ path headers payload. next;
  stream = λ path headers payload s. (transport_error (codes "down"), s);
}

abbrev again : {N A : Type 0} → Sent A × N → (N → Sent A × N) → Sent A × N
again (transport_error m, t) rest = rest t
again (answered a, t) rest = (answered a, t)
again (failed e, t) rest = (failed e, t)

pub retry_times : {N A : Type 0} → Retry N A
retry_times zero call s = call s
retry_times (suc zero) call s = call s
retry_times (suc (suc n)) call s = again (call s) (retry_times (suc n) call)

again-settled :
    {N A : Type 0} (given : Sent A × N) (rest : N → Sent A × N)
    → ((m : Text) → given.0 ≢ transport_error m)
    → again given rest ≡ given
again-settled (transport_error m, t) rest h = absurd (h m refl)
again-settled (answered a, t) rest h = refl
again-settled (failed e, t) rest h = refl

pub retry_times-IsRetry : {N A : Type 0} → IsRetry {N = N} {A = A} retry_times
unfolding retry_times
retry_times-IsRetry = record {
  once = λ call s. refl;
  again = λ n call s t m e. ap (λ g. again g (retry_times (suc n) call)) e;
  settled = λ n call s h. again-settled (call s) (retry_times (suc n) call) h;
}

abbrev busy : Network
busy =
    transport_error (codes "reset")
    ∷ answered (record { status_code = 429; text = codes "slow down"; json = raise type_error })
    ∷ []

fields : Pydantic ℤ
fields = record {
  str_value = λ v. elim v [ str s ↦ ok s | _ ↦ raise type_error ];
  int_value = λ v. elim v [ int z ↦ ok z | _ ↦ raise type_error ];
  usage_value = λ d. elim d [
    | field k v rest ↦ elim v [
      | int i ↦ elim rest [
        | field k v rest ↦ elim v [
          | int o ↦ elim rest [
            | field k v rest ↦ elim v [
              | int t ↦ ok (record {
                prompt_tokens = i;
                completion_tokens = o;
                total_tokens = t;
                extra = empty;
              })
              | _ ↦ raise type_error
            ]
            | _ ↦ raise type_error
          ]
          | _ ↦ raise type_error
        ]
        | _ ↦ raise type_error
      ]
      | _ ↦ raise type_error
    ]
    | _ ↦ raise type_error
  ];
}

complete-Exchanged_example :
    Exchanged
      (client.post path (OpenAi.bearer (codes "key")) (payload (λ r. empty) false request))
      (codes "openai")
      (λ v. ok response)
      busy
      (OpenAi.complete client retry_times
        (λ r. empty)
        (λ v. ok response)
        (codes "key")
        request
        busy)
    × Exchanged
        (client.post path [] (payload (λ r. empty) false request))
        (codes "ollama")
        (λ v. ok response)
        busy
        (Ollama.complete client retry_times (λ r. empty) (λ v. ok response) request busy)
    × Exchanged
        (client.post
          (codes "/messages")
          (Anthropic.headers client retry_times fields (codes "key") (codes "2023-06-01"))
          (to_anthropic_payload request))
        (codes "anthropic")
        (λ body. to_openai_response fields (codes "new") (pos 7) body request.model)
        busy
        (Anthropic.complete client retry_times fields
          (codes "key")
          (codes "2023-06-01")
          (codes "new")
          (pos 7)
          request
          busy)
complete-Exchanged_example =
    complete-Exchanged client retry_times retry_times-IsRetry request busy (λ r. empty)
      (λ v. ok response) fields (codes "key") (codes "2023-06-01") (codes "new") (pos 7)

abbrev block : (kind key text : Text) → Json ℤ
block kind key text = obj (field (codes "type") (str kind) (field key (str text) empty))

abbrev counts : Fields ℤ
counts =
    field (codes "input_tokens") (int (pos 5)) (field (codes "output_tokens") (int (pos 8)) empty)

abbrev message : Fields ℤ
message = field (codes "id") (str (codes "msg_1")) (
    field (codes "model") (str (codes "claude-3")) (
      field (codes "content")
        (arr (
          cons (block (codes "text") (codes "text") (codes "Hello, ")) (
            cons (block (codes "tool_use") (codes "name") (codes "lookup"))
              (cons (block (codes "text") (codes "text") (codes "world.")) nil))))
        (field (codes "stop_reason") (str (codes "max_tokens"))
          (field (codes "usage") (obj counts) empty))))

message-Message :
    Message message
      (codes "msg_1")
      (codes "claude-3")
      (codes "Hello, world.")
      (codes "max_tokens")
      (pos 5)
      (pos 8)
unfolding get text_eq
message-Message = record {
  blocks = _;
  counts = counts;
  id_lem = refl;
  model_lem = refl;
  content_lem = refl;
  text_lem =
      text_block (codes "Hello, ") refl refl (
        other_block (codes "tool_use") refl refl (text_block (codes "world.") refl refl no_blocks));
  reason_lem = refl;
  usage_lem = refl;
  input_lem = refl;
  output_lem = refl;
}

fields-IsValidating : IsValidating fields
unfolding fields
fields-IsValidating = record { str_lem = λ s. refl; usage_lem = λ i o t. refl }

to_openai_response-translated_example :
    to_openai_response fields (codes "new") (pos 7) (obj message) (codes "claude-3-opus")
    ≡ ok (
        translated
          (codes "msg_1")
          (codes "claude-3")
          (codes "Hello, world.")
          (codes "max_tokens")
          (pos 5)
          (pos 8)
          (pos 7))
to_openai_response-translated_example =
    to_openai_response-translated fields fields-IsValidating (codes "new") (pos 7)
      (codes "claude-3-opus") message (codes "msg_1") (codes "claude-3") (codes "Hello, world.")
      (codes "max_tokens") (pos 5) (pos 8) message-Message
