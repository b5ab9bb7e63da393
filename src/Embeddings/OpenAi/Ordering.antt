-- ===== src/Embeddings/OpenAi/Ordering.antt =====
-- What a batch gives for a response of the documented form, whatever the order of its items.
use mathlib.Core.List.{Perm, Pairwise}
use llm_semantic_caching_lay.Prelude.{
  ℕ, ◌/◌, max, ◌≡◌, refl, sym, ap, ◌∙◌, inl, inr, Bool, true, false, Bool-cases, Option, none, some,
  List, [], ◌∷◌, map, length, ltb, leb, Text, codes, Result, ok, arith,
}
use llm_semantic_caching_lay.Prelude.Int.{pos}
use llm_semantic_caching_lay.Prelude.Sort.{insert, sorted, sorted-perm, sorted-Pairwise}
use llm_semantic_caching_lay.Float.{Float}
use llm_semantic_caching_lay.Models.Json.{
  Json, int, arr, obj, Items, nil, cons, Fields, get, get_of, or_default, iterate, elements,
}
use llm_semantic_caching_lay.Models.Json.Order.{less, insert_by, sorted_by}
use llm_semantic_caching_lay.Cache.Numpy.{Numpy}
use llm_semantic_caching_lay.Embeddings.{EmbeddingResult, normalize}
use llm_semantic_caching_lay.Providers.Http.{
  Response, Sent, answered, HttpClient, Retry, outcome, attempt,
}
use llm_semantic_caching_lay.Providers.Http.Attempts.{IsRetry}
use llm_semantic_caching_lay.Embeddings.OpenAi.{
  floor_div, subscript, keyed, embedded, read_body, embed_batch, embed_batch_once, read_response,
  payload,
}
use llm_semantic_caching_lay.Providers.OpenAi.{bearer}

module _ {F : Type 0} (float_array : Json F → Result (List F)) where
  -- An item of a response: a dict that has an index and an embedding, whatever else it has.
  pub record Item : Type 0 where
    pub fields : Fields F
    pub index : ℕ
    pub embedding : Json F
    pub vector : List F
    pub index_lem : get fields (codes "index") ≡ some (int (pos index))
    pub embedding_lem : get fields (codes "embedding") ≡ some embedding
    pub vector_lem : float_array embedding ≡ ok vector

  -- The list of the items.
  abbrev pub listed : List Item → Items F
  listed [] = nil
  listed (x ∷ xs) = cons (obj x.fields) (listed xs)

  -- A body of the documented form, whatever else it has.
  pub record IsBody (xs : List Item) (total : ℕ) (body : Fields F) : Type 0 where
    pub usage : Fields F
    pub data_lem : get body (codes "data") ≡ some (arr (listed xs))
    pub usage_lem : get body (codes "usage") ≡ some (obj usage)
    pub total_lem : get usage (codes "total_tokens") ≡ some (int (pos total))

  abbrev pub not_after : Item → Item → Bool
  not_after x y = leb x.index y.index

  abbrev pair : Item → Json F × Json F
  pair x = (int (pos x.index), obj x.fields)

  keyed_lem : (xs : List Item) → keyed (elements (listed xs)) ≡ ok (map pair xs)
  unfolding keyed elements subscript
  keyed_lem [] = refl
  keyed_lem (x ∷ xs) = rw (keyed_lem xs, x.index_lem) refl

module _ (F : Type 0) ⦃f : Float F⦄ where
  less-int : (m n : ℕ) → less {F = F} (int (pos m)) (int (pos n)) ≡ ok (ltb m n)
  unfolding less
  less-int m n = ap ok (ground arith)

module _ {F : Type 0} ⦃f : Float F⦄ (float_array : Json F → Result (List F)) where
  insert_by-insert :
      (x : Item float_array) (ys : List (Item float_array))
      → insert_by (pair float_array x) (map (pair float_array) ys)
        ≡ ok (map (pair float_array) (insert (not_after float_array) x ys))
  unfolding insert_by insert
  insert_by-insert x [] = refl
  insert_by-insert x (y ∷ ys) = elim (Bool-cases (ltb y.index x.index)) [
    | inl before ↦
        let after : not_after float_array x y ≡ false = ground (arith, before) in
        rw (insert_by-insert x ys, less-int F y.index x.index, before, after) refl
    | inr not_before ↦
        let first : not_after float_array x y ≡ true = ground (arith, not_before) in
        rw (less-int F y.index x.index, not_before, first) refl
  ]

  sorted_by-sorted :
      (xs : List (Item float_array))
      → sorted_by (map (pair float_array) xs)
        ≡ ok (map (pair float_array) (sorted (not_after float_array) xs))
  unfolding sorted_by sorted
  sorted_by-sorted [] = refl
  sorted_by-sorted (x ∷ xs) =
      rw (sorted_by-sorted xs) (insert_by-insert x (sorted (not_after float_array) xs))

  not_after_trans :
      (x y z : Item float_array)
      → not_after float_array x y ≡ true
      → not_after float_array y z ≡ true
      → not_after float_array x z ≡ true
  not_after_trans x y z a b = ground arith

  not_after-total :
      (x y : Item float_array)
      → not_after float_array x y ≡ false
      → not_after float_array y x ≡ true
  not_after-total x y a = ground arith

module _ {F N : Type 0} ⦃f : Float F⦄ (np : Numpy F) (float_array : Json F → Result (List F))
    (raise_for_status : Response F → Option Text) (client : HttpClient F N)
    (retry : Retry N (List (EmbeddingResult F))) (api_key model : Text) (dimensions : ℕ) where
  -- The result for an item, with its share of the tokens.
  abbrev pub result : ℕ → Item float_array → EmbeddingResult F
  result tokens x = record {
    vector = normalize np x.vector;
    model = model;
    dimensions = dimensions;
    tokens = pos tokens;
  }

  embedded_lem :
      (tokens : ℕ) (xs : List (Item float_array))
      → embedded np float_array raise_for_status client retry api_key model dimensions
          (pos tokens)
          (map (pair float_array) xs)
        ≡ ok (map (result tokens) xs)
  unfolding embedded subscript
  embedded_lem tokens [] = refl
  embedded_lem tokens (x ∷ xs) = rw (embedded_lem tokens xs, x.embedding_lem, x.vector_lem) refl

  abbrev pub reading : List Text → Json F → Result (List (EmbeddingResult F))
  reading = read_body np float_array raise_for_status client retry api_key model dimensions

  reading_lem :
      (texts : List Text) (xs : List (Item float_array)) (total : ℕ) (body : Fields F)
      → IsBody float_array xs total body
      → reading texts (obj body)
        ≡ ok (map (result (total / max (length texts) 1)) (sorted (not_after float_array) xs))
  unfolding read_body get_of or_default floor_div iterate subscript
  reading_lem texts xs total body given =
      rw
        (
          given.usage_lem,
          given.total_lem,
          given.data_lem,
          keyed_lem float_array xs,
          sorted_by-sorted float_array xs,
        )
        (embedded_lem (total / max (length texts) 1) (sorted (not_after float_array) xs))

  abbrev pub batch : List Text → N → Result (List (EmbeddingResult F)) × N
  batch = embed_batch np float_array raise_for_status client retry api_key model dimensions

  abbrev once : List Text → N → Sent (List (EmbeddingResult F)) × N
  once = embed_batch_once np float_array raise_for_status client retry api_key model dimensions

  abbrev pub posting : List Text → N → Sent (Response F) × N
  posting texts =
      client.post (codes "/embeddings") (bearer api_key)
        (payload np float_array raise_for_status client retry api_key model dimensions texts)

  once_answered :
      (t : Text) (ts : List Text) (s s' : N) (r : Response F) (xs : List (Item float_array))
      (total : ℕ) (body : Fields F)
      → posting (t ∷ ts) s ≡ (answered r, s')
      → raise_for_status r ≡ none
      → r.json ≡ ok (obj body)
      → IsBody float_array xs total body
      → once (t ∷ ts) s ≡ (
        answered
            (map (result (total / max (length (t ∷ ts)) 1)) (sorted (not_after float_array) xs)),
        s',
      )
  unfolding embed_batch_once attempt read_response
  once_answered t ts s s' r xs total body posted fine given form =
      rw (posted, read_response, fine, given, reading_lem (t ∷ ts) xs total body form) refl

  -- The results of a batch are those of the items of the response in ascending order of their
  -- index, whatever the order they came in, one for each item, with the normalized embedding and
  -- an equal share of the tokens. The response is a dict with a list of items, each a dict with an
  -- index and an embedding that NumPy reads, and with a total of tokens in its usage, whatever else
  -- these dicts hold. The first response that comes is answered with success; tenacity is taken to
  -- make one attempt then.
  pub embed_batch-ordered :
      (lawful : IsRetry retry) (t : Text) (ts : List Text) (s s' : N) (r : Response F)
      (xs : List (Item float_array)) (total : ℕ) (body : Fields F)
      → posting (t ∷ ts) s ≡ (answered r, s')
      → raise_for_status r ≡ none
      → r.json ≡ ok (obj body)
      → IsBody float_array xs total body
      → (ys : List (Item float_array)) × (batch (t ∷ ts) s
          ≡ (ok (map (result (total / max (length (t ∷ ts)) 1)) ys), s'))
        × Perm ys xs
        × Pairwise (λ a b. not_after float_array a b ≡ true) ys
  unfolding embed_batch outcome
  embed_batch-ordered lawful t ts s s' r xs total body posted fine given form =
      let e = once_answered t ts s s' r xs total body posted fine given form in
      let settled =
        lawful.settled 1 (once (t ∷ ts)) s (λ m lost. cc (sym (ap (λ u. u.0) e) ∙ lost)) in
      (
        sorted (not_after float_array) xs,
        rw (settled, e) refl,
        sorted-perm (not_after float_array) xs,
        sorted-Pairwise (not_after float_array) (not_after_trans float_array)
            (not_after-total float_array) xs,
      )
