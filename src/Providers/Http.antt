-- ===== src/Providers/Http.antt =====
-- The HTTP client that the providers call, and the retries around `complete` in
-- app/providers/openai.py, ollama.py and anthropic.py. The client stands for `httpx`, and `Retry`
-- for `tenacity`.
pub mod Attempts
pub mod Exchange
use llm_semantic_caching_lay.Prelude.{
  ℕ, zero, suc, ◌++◌, [], Option, List, leb, take, Text, codes, Result, ok, raise, Error, and_then,
  provider_error, failure, if◌then◌else◌,
}
use llm_semantic_caching_lay.Prelude.Int.{pos}
use llm_semantic_caching_lay.Prelude.Decimal.{str_int}
use llm_semantic_caching_lay.Prelude.Dict.{Dict}
use llm_semantic_caching_lay.Models.Json.{Json}

pub record Response (F : Type 0) : Type 0 where
  pub status_code : ℕ
  pub text : Text
  -- what `json()` returns or raises
  pub json : Result (Json F)

-- A call is answered, ends in a `TransportError`, or in any other exception.
pub data Sent (A : Type 0) : Type 0 where
  answered : A → Sent A
  transport_error : Text → Sent A
  failed : Error → Sent A

-- A response whose bytes are read later: its chunks, and the exception that may end them.
pub record Streamed : Type 0 where
  pub status_code : ℕ
  -- `f"{body[:200]!r}"` of the whole body
  pub shown_body : Text
  pub chunks : List Text × Option Error

-- `httpx.AsyncClient`, over an unknown state of the network.
pub record HttpClient (F N : Type 0) : Type 0 where
  pub post : (path : Text) (headers : Dict Text) (payload : Json F) → N → Sent (Response F) × N
  pub stream : (path : Text) (headers : Dict Text) (payload : Json F) → N → Sent Streamed × N

-- What the caller of a provider gets.
unfoldable pub outcome : {A : Type 0} → Sent A → Result A
outcome (answered a) = ok a
outcome (transport_error m) = raise (failure m)
outcome (failed e) = raise e

-- `tenacity.retry` for `TransportError`, with `stop_after_attempt(n)` and `reraise=True`.
abbrev pub Retry : Type 0 → Type 0 → Type 0
Retry N A = ℕ → (N → Sent A × N) → N → Sent A × N

-- `ProviderError(f"{name}{what} returned {status}: {shown}", ...)`.
unfoldable pub refusal : (name what : Text) (status : ℕ) (shown : Text) → Error
unfolding str_int
refusal name what status shown =
    provider_error
      (name ++ (what ++ (codes " returned " ++ (str_int (pos status) ++ (codes ": " ++ shown)))))
      status name

-- The body of `complete` after the response has come.
unfoldable pub read_response :
    {F A : Type 0} → (name : Text) → (Json F → Result A) → Response F → Sent A
unfolding refusal
read_response name convert r =
    if leb 400 r.status_code
    then failed (refusal name [] r.status_code (take 200 r.text))
    else elim (and_then r.json convert) [ ok a ↦ answered a | raise e ↦ failed e ]

-- One attempt: a post, and its response read.
unfoldable pub attempt :
    {F N A : Type 0} → (N → Sent (Response F) × N) → (Response F → Sent A) → N → Sent A × N
attempt post read s =
    let (sent, after) = post s in
    (
      elim sent [
        | answered r ↦ read r
        | transport_error m ↦ transport_error m
        | failed e ↦ failed e
      ],
      after,
    )
