-- ===== src/Proxy/Streaming.antt =====
-- app/proxy/streaming.py. Bytes are lists of numbers; `loads` stands for `orjson.loads`, which gives
-- none for a `JSONDecodeError`, and `Pydantic` for the models' validation of fields.
pub mod Frames
pub mod Pushing
pub mod Ending
pub mod Building
pub mod Rendering
use llm_semantic_caching_lay.Prelude.{
  ℕ, zero, suc, ◌+◌, ◌*◌, ◌/◌, max, ◌≡◌, Bool, true, false, not, ◌&&◌, ◌||◌, Option, none, some,
  List, [], ◌∷◌, ◌++◌, map, length, drop, ◌==◌, Text, codes, text_eq, starts_with, strip,
  is_byte_space, Exec, Result, ok, raise, attribute_error, type_error, and_then, continue, pure,
  lift, ◌>>=◌, ◌>>◌, if◌then◌else◌,
}
use llm_semantic_caching_lay.Prelude.Int.{ℤ, pos}
use llm_semantic_caching_lay.Float.{Float}
use llm_semantic_caching_lay.Models.Json.{
  Json, null, str, arr, obj, nil, Fields, empty, field, get, get_of, or_default, iterate, is_true,
}
use llm_semantic_caching_lay.Models.Chat.{
  Role, ChatMessage, ChatCompletionChoice, CompletionUsage, ChatCompletionResponse,
}

-- What the events have given so far: the fields of the object behind its buffer.
pub record Assembled (F : Type 0) : Type 0 where
  pub content_parts : List (Json F)
  pub finish_reason : Json F
  pub id : Json F
  pub created : Json F
  pub usage : Json F
  pub completed : Bool

pub record StreamAssembler (F : Type 0) : Type 0 where
  pub model : Text
  pub buffer : Text
  pub assembled : Assembled F

pub record Pydantic (F : Type 0) : Type 0 where
  pub str_value : Json F → Result Text
  pub int_value : Json F → Result ℤ
  pub usage_value : Fields F → Result (CompletionUsage F)

-- What is at hand before the first event.
abbrev pub nothing : {F : Type 0} → Assembled F
nothing = record {
  content_parts = [];
  finish_reason = null;
  id = null;
  created = null;
  usage = null;
  completed = false;
}

abbrev pub init : {F : Type 0} → Text → StreamAssembler F
init model = record { model = model; buffer = []; assembled = nothing }

-- `buffer.split(b"\n\n", 1)`, where the separator occurs.
unfoldable pub split_event : Text → Option (Text × Text)
split_event [] = none
split_event (c ∷ []) = none
split_event (c ∷ d ∷ s) =
    let rest = split_event (d ∷ s) in
    if c == 10 && d == 10
    then some ([], s)
    else elim rest [ none ↦ none | some (event, after) ↦ some (c ∷ event, after) ]

-- `event.split(b"\n")`: there is always a first line.
unfoldable pub split_lines : Text → Text × List Text
split_lines [] = ([], [])
split_lines (c ∷ s) =
    let rest = split_lines s in if c == 10 then ([], rest.0 ∷ rest.1) else (c ∷ rest.0, rest.1)

module _ {F : Type 0} ⦃f : Float F⦄ where
  unfoldable pub merge_choice : Json F → Exec (Assembled F) (Unit {0})
  unfolding get_of is_true or_default
  merge_choice choice = do
    delta ← lift (get_of choice (codes "delta"))
    content ← lift (get_of (or_default delta (obj empty)) (codes "content"))
    (λ s.
        if is_true (or_default content null)
        then (ok tt, record s { content_parts = s.content_parts ++ (or_default content null ∷ []) })
        else (ok tt, s))
    finish ← lift (get_of choice (codes "finish_reason"))
    (λ s.
        if is_true (or_default finish null)
        then (ok tt, record s { finish_reason = or_default finish null })
        else (ok tt, s))

  -- The loop over the choices.
  unfoldable pub merge_choices : List (Json F) → Exec (Assembled F) (Unit {0})
  merge_choices [] = pure tt
  merge_choices (c ∷ cs) = do merge_choice c; merge_choices cs

  -- Only a dict has the method `get`.
  unfoldable pub merge : Json F → Exec (Assembled F) (Unit {0})
  unfolding get or_default is_true
  merge (obj d) s =
      let s1 = record s {
        id = or_default (get d (codes "id")) s.id;
        created = or_default (get d (codes "created")) s.created;
        usage =
            if is_true (or_default (get d (codes "usage")) null)
            then or_default (get d (codes "usage")) null
            else s.usage;
      } in
      continue (iterate (or_default (get d (codes "choices")) (arr nil)), s1) merge_choices
  merge _ s = (raise attribute_error, s)

  module _ (loads : Text → Option (Json F)) where
    -- One line of an event.
    unfoldable pub consume_line : Text → Exec (Assembled F) (Unit {0})
    unfolding strip starts_with text_eq
    consume_line line s =
        let text = strip is_byte_space line in
        let payload = strip is_byte_space (drop 5 text) in
        if not (starts_with (codes "data:") text)
        then (ok tt, s)
        else if text_eq payload (codes "[DONE]")
        then (ok tt, record s { completed = true })
        else elim (loads payload) [ none ↦ (ok tt, s) | some value ↦ merge value s ]

    unfoldable pub consume_lines : List Text → Exec (Assembled F) (Unit {0})
    consume_lines [] = pure tt
    consume_lines (l ∷ ls) = do consume_line l; consume_lines ls

    unfoldable pub consume_event : Text → Exec (Assembled F) (Unit {0})
    unfolding split_lines
    consume_event event = consume_lines ((split_lines event).0 ∷ (split_lines event).1)

    -- The loop of `push`: the buffer is cut before the event is read.
    unfoldable pub drain : ℕ → Exec (StreamAssembler F) (Unit {0})
    drain zero s = (ok tt, s)
    drain (suc n) s = elim (split_event s.buffer) [
      | none ↦ (ok tt, s)
      | some (event, after) ↦
          let read = consume_event event s.assembled in
          continue (read.0, record s { buffer = after; assembled = read.1 }) (λ u. drain n)
    ]

    -- Each pass takes two bytes at least, so the buffer's length is enough passes.
    unfoldable pub push : Text → Exec (StreamAssembler F) (Unit {0})
    push chunk s =
        let buffer = s.buffer ++ chunk in drain (length buffer) (record s { buffer = buffer })

    -- `async for chunk in ...: assembler.push(chunk)`.
    unfoldable pub push_all : List Text → Exec (StreamAssembler F) (Unit {0})
    push_all [] = pure tt
    push_all (c ∷ cs) = do push c; push_all cs
