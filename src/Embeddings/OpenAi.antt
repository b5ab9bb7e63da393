-- ===== src/Embeddings/OpenAi.antt =====
-- app/embeddings/openai.py. `transport_error` stands for either exception that the decorator retries:
-- a transport error, or the `HTTPStatusError` of `raise_for_status`. `float_array` stands for
-- `np.asarray` of a value of the body. The number of tokens is a whole number in the API, and no
-- other is divided here.
pub mod Ordering
use llm_semantic_caching_lay.Prelude.{
  ℕ, suc, ◌+◌, ◌-◌, ◌/◌, max, Option, none, some, List, [], ◌∷◌, map, length, index_error,
  key_error, type_error, Text, codes, Result, ok, raise, and_then, or_raise,
}
use llm_semantic_caching_lay.Prelude.Int.{ℤ, pos, negsuc}
use llm_semantic_caching_lay.Float.{Float}
use llm_semantic_caching_lay.Models.Json.{
  Json, int, str, arr, obj, Items, nil, cons, Fields, empty, field, get, get_of, or_default,
  iterate,
}
use llm_semantic_caching_lay.Models.Json.Order.{whole, sorted_by}
use llm_semantic_caching_lay.Cache.Numpy.{Numpy}
use llm_semantic_caching_lay.Embeddings.{EmbeddingResult, normalize}
use llm_semantic_caching_lay.Providers.Http.{
  Response, Sent, answered, transport_error, failed, HttpClient, Retry, outcome, attempt,
}
use llm_semantic_caching_lay.Providers.OpenAi.{bearer}

-- `z // n`, for a positive `n`: the quotient is rounded down.
unfoldable pub floor_div : ℤ → ℕ → ℤ
floor_div (pos m) n = pos (m / n)
floor_div (negsuc m) n = negsuc (m / n)

module _ {F : Type 0} where
  -- `v[k]`, where only a dict takes a text.
  unfoldable pub subscript : Json F → Text → Result (Json F)
  unfolding get
  subscript (obj d) k = or_raise (get d k) key_error
  subscript _ k = raise type_error

  unfoldable pub to_items : List Text → Items F
  to_items [] = nil
  to_items (t ∷ ts) = cons (str t) (to_items ts)

  -- The keys of the items, which `sorted` computes first.
  unfoldable pub keyed : List (Json F) → Result (List (Json F × Json F))
  unfolding subscript
  keyed [] = ok []
  keyed (d ∷ ds) =
      let rest = keyed ds in
      and_then (subscript d (codes "index")) (λ k. and_then rest (λ others. ok ((k, d) ∷ others)))

module _ {F N : Type 0} ⦃f : Float F⦄ (np : Numpy F) (float_array : Json F → Result (List F))
    (raise_for_status : Response F → Option Text) (client : HttpClient F N)
    (retry : Retry N (List (EmbeddingResult F))) (api_key model : Text) (dimensions : ℕ) where
  -- The loop over the sorted items.
  unfoldable pub embedded : ℤ → List (Json F × Json F) → Result (List (EmbeddingResult F))
  unfolding subscript normalize
  embedded tokens [] = ok []
  embedded tokens ((k, item) ∷ items) =
      let rest = embedded tokens items in
      and_then (subscript item (codes "embedding")) (λ embedding.
        and_then (float_array embedding) (λ vector. and_then rest (λ results. ok (
          record {
            vector = normalize np vector;
            model = model;
            dimensions = dimensions;
            tokens = tokens;
          }
          ∷ results))))

  -- `embed_batch` from the body of the response on.
  unfoldable pub read_body : (texts : List Text) → Json F → Result (List (EmbeddingResult F))
  unfolding get_of or_default floor_div iterate keyed sorted_by embedded subscript
  read_body texts body = and_then (get_of body (codes "usage")) (λ usage.
      and_then (get_of (or_default usage (obj empty)) (codes "total_tokens")) (λ total.
        and_then (or_raise (whole (or_default total (int (pos 0)))) type_error) (λ total_tokens.
          let per_item_tokens = floor_div total_tokens (max (length texts) 1) in
          and_then (subscript body (codes "data")) (λ listed. and_then (iterate listed) (λ items.
            and_then (keyed items) (λ pairs.
              and_then (sorted_by pairs) (λ ordered. embedded per_item_tokens ordered)))))))

  unfoldable pub payload : List Text → Json F
  unfolding to_items
  payload texts = obj (
      field (codes "model") (str model) (
        field (codes "input") (arr (to_items texts))
          (field (codes "dimensions") (int (pos dimensions)) empty)))

  -- What becomes of a response.
  unfoldable pub read_response : (texts : List Text) → Response F → Sent (List (EmbeddingResult F))
  unfolding read_body
  read_response texts r = elim (raise_for_status r) [
    | some message ↦ transport_error message
    | none ↦ elim (and_then r.json (read_body texts)) [ ok a ↦ answered a | raise e ↦ failed e ]
  ]

  -- The body of `embed_batch`, which the decorator calls.
  unfoldable pub embed_batch_once : List Text → N → Sent (List (EmbeddingResult F)) × N
  unfolding attempt read_response payload
  embed_batch_once [] s = (answered [], s)
  embed_batch_once (t ∷ ts) s =
      attempt (client.post (codes "/embeddings") (bearer api_key) (payload (t ∷ ts)))
        (read_response (t ∷ ts)) s

  unfoldable pub embed_batch : List Text → N → Result (List (EmbeddingResult F)) × N
  unfolding outcome
  embed_batch texts s =
      let (sent, after) = retry 3 (embed_batch_once texts) s in (outcome sent, after)

  -- `results[0]`.
  unfoldable pub first : List (EmbeddingResult F) → Result (EmbeddingResult F)
  first [] = raise index_error
  first (r ∷ rs) = ok r

  unfoldable pub embed : Text → N → Result (EmbeddingResult F) × N
  unfolding first
  embed text s = let (results, after) = embed_batch (text ∷ []) s in (and_then results first, after)
