-- ===== src/Proxy/Streaming/Rendering/ReadBack.antt =====
-- A response that is rendered, sent, and built again of the bytes received.
use llm_semantic_caching_lay.Prelude.{
  ℕ, ◌≡◌, refl, ap, ◌∙◌, Bool, true, not, Bool-cases, Option, none, some, inl, inr, List, [], ◌∷◌,
  ◌++◌, append-nil, take, drop, take-append-drop, ◌==◌, Text, codes, truthy, Result, ok, raise,
  failure, and_then, if◌then◌else◌,
}
use llm_semantic_caching_lay.Prelude.Int.{ℤ, pos, negsuc}
use llm_semantic_caching_lay.Float.{Float}
use llm_semantic_caching_lay.Models.Json.{Json, int, str, is_true, Fields}
use llm_semantic_caching_lay.Models.Chat.{Role, ChatCompletionResponse, first_text}
use llm_semantic_caching_lay.Proxy.Streaming.{Pydantic, init, push_all}
use llm_semantic_caching_lay.Proxy.Streaming.Building.{build_response, estimated_usage, join_parts}
use llm_semantic_caching_lay.Proxy.Streaming.Pushing.{concat}
use llm_semantic_caching_lay.Proxy.Streaming.Rendering.{finish_of, response_to_sse}
use llm_semantic_caching_lay.Proxy.Streaming.Rendering.Replay.{
  IsRendered, chunks, replayed, response_to_sse-chunks, push_all-replayed, finish_value,
}

-- Bytes sent in pieces of given sizes, the last of which takes what is left.
unfoldable pub divide : List ℕ → Text → List Text
divide [] s = s ∷ []
divide (n ∷ ns) s = take n s ∷ divide ns (drop n s)

concat-divide : (sizes : List ℕ) (s : Text) → concat (divide sizes s) ≡ s
unfolding divide
concat-divide [] s = append-nil s
concat-divide (n ∷ ns) s =
    ap (λ t. take n s ++ t) (concat-divide ns (drop n s)) ∙ take-append-drop n s

-- How the model's fields read a text and a whole number.
pub record IsValidating {F : Type 0} (p : Pydantic F) : Type 0 where
  pub str_lem : (s : Text) → p.str_value (str s) ≡ ok s
  pub int_lem : (z : ℤ) → p.int_value (int z) ≡ ok z

-- A number in a test.
abbrev nonzero : ℤ → Bool
nonzero (pos n) = not (n == 0)
nonzero (negsuc n) = true

-- `reason or "stop"`.
abbrev stop_reason : Option Text → Text
stop_reason none = codes "stop"
stop_reason (some []) = codes "stop"
stop_reason (some (c ∷ s)) = c ∷ s

content-join_parts :
    (F : Type 0) (s : Text) → join_parts {F = F} (if truthy s then str s ∷ [] else []) ≡ ok s
unfolding join_parts
content-join_parts F [] = refl
content-join_parts F (c ∷ s) = ap ok (append-nil (c ∷ s))

module _ {F : Type 0} ⦃f : Float F⦄ where
  -- What is left of a response: its text, finish reason, identifier and time, under the requested
  -- model, with an estimated usage.
  unfoldable pub rebuilt :
      (drawn_id : Text) (time : ℤ) (model : Text)
      → ChatCompletionResponse F
      → ChatCompletionResponse F
  rebuilt drawn_id time model r = record {
    id = if truthy r.id then r.id else drawn_id;
    object = codes "chat.completion";
    created = if nonzero r.created then r.created else time;
    model = model;
    choices =
        record {
          index = pos 0;
          message = record {
            role = Role.assistant;
            content = some (first_text r);
            name = none;
            extra = Fields.empty;
          };
          finish_reason = some (stop_reason (finish_of r));
          extra = Fields.empty;
        }
        ∷ [];
    usage = estimated_usage (first_text r);
    extra = Fields.empty;
  }

  -- What `miss_body` makes of received bytes, where it keeps anything.
  unfoldable pub received :
      (loads : Text → Option (Json F)) (p : Pydantic F) (drawn_id : Text) (time : ℤ) (model : Text)
      → List Text
      → Result (ChatCompletionResponse F)
  received loads p drawn_id time model parts =
      let read = push_all loads parts (init model) in
      and_then read.0 (λ u.
        if read.1.assembled.completed
        then build_response p drawn_id time read.1
        else raise (failure (codes "incomplete")))

  module _ (p : Pydantic F) (lawful : IsValidating p) where
    finish_lem :
        (t : Option Text)
        → (if is_true {F = F} (finish_value t)
            then p.str_value (finish_value t)
            else ok (codes "stop"))
          ≡ ok (stop_reason t)
    unfolding is_true
    finish_lem none = refl
    finish_lem (some []) = refl
    finish_lem (some (c ∷ s)) = lawful.str_lem (c ∷ s)

    id_lem :
        (s drawn : Text)
        → (if is_true {F = F} (str s) then p.str_value (str s) else ok drawn)
          ≡ ok (if truthy s then s else drawn)
    unfolding is_true
    id_lem [] drawn = refl
    id_lem (c ∷ s) drawn = lawful.str_lem (c ∷ s)

    created_lem :
        (z time : ℤ)
        → (if is_true {F = F} (int z) then p.int_value (int z) else ok time)
          ≡ ok (if nonzero z then z else time)
    unfolding is_true
    created_lem (pos n) time = elim (Bool-cases (n == 0)) [
      | inl e ↦ rw e refl
      | inr e ↦ rw e (lawful.int_lem (pos n))
    ]
    created_lem (negsuc n) time = lawful.int_lem (negsuc n)

    build_response-replayed :
        (drawn_id : Text) (time : ℤ) (model : Text) (r : ChatCompletionResponse F)
        → build_response p drawn_id time (record (init model) { assembled = replayed r })
          ≡ ok (rebuilt drawn_id time model r)
    unfolding build_response replayed rebuilt is_true
    build_response-replayed drawn_id time model r =
        rw
          (
            content-join_parts F (first_text r),
            finish_lem (finish_of r),
            id_lem r.id drawn_id,
            created_lem r.created time,
          )
          refl

    -- A response is rendered by `response_to_sse`, its bytes are sent in pieces of any sizes, and
    -- the pieces are pushed into a new assembler, which is then complete. The response that is
    -- built has the rendered response's first text, its finish reason (`stop` if it has none or an
    -- empty one), its identifier and its creation time (drawn anew if empty or 0), the model that
    -- the assembler was given, and the estimated usage. `orjson` is taken to read back the three
    -- dictionaries, which it writes in one line each, and the models' fields to keep texts and
    -- numbers.
    pub received-response_to_sse :
        (dumps : Json F → Result Text) (loads : Text → Option (Json F))
        (r : ChatCompletionResponse F) (e : IsRendered dumps loads r) (sizes : List ℕ)
        (drawn_id : Text) (time : ℤ) (model : Text)
        → and_then
            (response_to_sse dumps r)
            (λ chunks. received loads p drawn_id time model (divide sizes (concat chunks)))
          ≡ ok (rebuilt drawn_id time model r)
    unfolding received replayed
    received-response_to_sse dumps loads r e sizes drawn_id time model =
        rw
          (
            response_to_sse-chunks dumps loads r e,
            push_all-replayed dumps loads r e model (divide sizes (concat (chunks dumps loads r e)))
                (concat-divide sizes (concat (chunks dumps loads r e))),
          )
          (build_response-replayed drawn_id time model r)
