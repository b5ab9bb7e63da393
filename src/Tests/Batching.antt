-- ===== src/Tests/Batching.antt =====
-- A batch of two texts whose items come in the other order.
use mathlib.Core.List.{Perm, Pairwise}
use llm_semantic_caching_lay.Prelude.{
  text_eq, ℕ, ◌≡◌, refl, true, none, List, [], ◌∷◌, map, codes, Result, ok, raise, type_error,
  and_then,
}
use llm_semantic_caching_lay.Prelude.Int.{ℤ, pos}
use llm_semantic_caching_lay.Float.Decimals.{decimals}
use llm_semantic_caching_lay.Models.Json.{
  Json, int, float, str, arr, obj, Items, nil, cons, Fields, empty, field, get,
}
use llm_semantic_caching_lay.Embeddings.OpenAi.Ordering.{
  Item, IsBody, listed, not_after, result, batch, embed_batch-ordered,
}
use llm_semantic_caching_lay.Providers.Http.{Response, HttpClient, answered, failed}
use llm_semantic_caching_lay.Tests.Arrays.{arrays}
use llm_semantic_caching_lay.Tests.Providing.{retry_times, retry_times-IsRetry}

abbrev numbers : List ℤ → Items ℤ
numbers [] = nil
numbers (x ∷ xs) = cons (float x) (numbers xs)

abbrev read_numbers : Items ℤ → Result (List ℤ)
read_numbers nil = ok []
read_numbers (cons (float x) vs) = let rest = read_numbers vs in and_then rest (λ xs. ok (x ∷ xs))
read_numbers (cons v vs) = raise type_error

abbrev float_array : Json ℤ → Result (List ℤ)
float_array (arr vs) = read_numbers vs
float_array v = raise type_error

abbrev dump : List ℤ → Json ℤ
dump xs = arr (numbers xs)

abbrev item_fields : ℕ → List ℤ → Fields ℤ
item_fields index vector =
    field (codes "object") (str (codes "embedding"))
      (field (codes "index") (int (pos index)) (field (codes "embedding") (dump vector) empty))

second_item : Item float_array
unfolding get text_eq
second_item = record {
  fields = item_fields 1 (pos 0 ∷ pos 10000 ∷ []);
  index = 1;
  embedding = dump (pos 0 ∷ pos 10000 ∷ []);
  vector = pos 0 ∷ pos 10000 ∷ [];
  index_lem = refl;
  embedding_lem = refl;
  vector_lem = refl;
}

first_item : Item float_array
unfolding get text_eq
first_item = record {
  fields = item_fields 0 (pos 10000 ∷ pos 0 ∷ []);
  index = 0;
  embedding = dump (pos 10000 ∷ pos 0 ∷ []);
  vector = pos 10000 ∷ pos 0 ∷ [];
  index_lem = refl;
  embedding_lem = refl;
  vector_lem = refl;
}

abbrev items : List (Item float_array)
items = second_item ∷ first_item ∷ []

abbrev usage : Fields ℤ
usage =
    field (codes "prompt_tokens") (int (pos 9)) (field (codes "total_tokens") (int (pos 9)) empty)

-- A body as the API sends it.
abbrev body : Fields ℤ
body = field (codes "object") (str (codes "list")) (
    field (codes "data") (arr (listed float_array items)) (
      field (codes "model") (str (codes "text-embedding-3-small"))
        (field (codes "usage") (obj usage) empty)))

body-IsBody : IsBody float_array items 9 body
unfolding get text_eq
body-IsBody = record { usage = usage; data_lem = refl; usage_lem = refl; total_lem = refl }

abbrev reply : Response ℤ
reply = record { status_code = 200; text = []; json = ok (obj body) }

abbrev client : HttpClient ℤ ℕ
client = record {
  post = λ path headers payload n. (answered reply, n);
  stream = λ path headers payload n. (failed type_error, n);
}

embed_batch-ordered_example :
    (ys : List (Item float_array)) × (batch arrays float_array
        (λ r. none)
        client
        retry_times
        (codes "key")
        (codes "text-embedding-3-small")
        2
        (codes "a" ∷ codes "b" ∷ [])
        0
      ≡ (
        ok (
            map
              (result arrays float_array
                (λ r. none)
                client
                retry_times
                (codes "key")
                (codes "text-embedding-3-small")
                2
                4)
              ys),
        0,
      ))
    × Perm ys items
    × Pairwise (λ a b. not_after float_array a b ≡ true) ys
embed_batch-ordered_example =
    embed_batch-ordered arrays float_array (λ r. none) client retry_times (codes "key")
      (codes "text-embedding-3-small") 2 retry_times-IsRetry (codes "a") (codes "b" ∷ []) 0 0 reply
      items 9 body refl refl refl body-IsBody
