-- ===== src/Providers/Anthropic/Translation.antt =====
-- What a message of Anthropic's API is translated to.
use llm_semantic_caching_lay.Prelude.{
  ◌≡◌, refl, false, none, some, List, [], ◌∷◌, ◌++◌, Text, codes, text_eq, ok,
}
use llm_semantic_caching_lay.Prelude.Int.{ℤ, pos, ◌+ℤ◌}
use llm_semantic_caching_lay.Float.{Float}
use llm_semantic_caching_lay.Models.Json.{
  Json, int, str, arr, obj, Items, nil, cons, Fields, empty, field, get, get_of, or_default,
  elements, iterate,
}
use llm_semantic_caching_lay.Models.Chat.{Role, ChatCompletionResponse}
use llm_semantic_caching_lay.Proxy.Streaming.{Pydantic}
use llm_semantic_caching_lay.Proxy.Streaming.Building.{join_parts}
use llm_semantic_caching_lay.Providers.Anthropic.{
  is_text_kind, block_texts, finish_reasons, finish_reason, plus, to_openai_response,
}

module _ {F : Type 0} where
  -- The blocks of a message, and the text of those of type `text`, in order.
  pub data Content : Items F → Text → Type 0 where
    no_blocks : Content nil []
    text_block :
        {d : Fields F} {rest : Items F} {text : Text} (s : Text)
        → get d (codes "type") ≡ some (str (codes "text"))
        → get d (codes "text") ≡ some (str s)
        → Content rest text
        → Content (cons (obj d) rest) (s ++ text)
    other_block :
        {d : Fields F} {rest : Items F} {text : Text} (kind : Text)
        → get d (codes "type") ≡ some (str kind)
        → text_eq kind (codes "text") ≡ false
        → Content rest text
        → Content (cons (obj d) rest) text

  -- A message as the API documents it.
  pub record Message (d : Fields F) (id model text reason : Text) (input output : ℤ) : Type 0 where
    pub blocks : Items F
    pub counts : Fields F
    pub id_lem : get d (codes "id") ≡ some (str id)
    pub model_lem : get d (codes "model") ≡ some (str model)
    pub content_lem : get d (codes "content") ≡ some (arr blocks)
    pub text_lem : Content blocks text
    pub reason_lem : get d (codes "stop_reason") ≡ some (str reason)
    pub usage_lem : get d (codes "usage") ≡ some (obj counts)
    pub input_lem : get counts (codes "input_tokens") ≡ some (int input)
    pub output_lem : get counts (codes "output_tokens") ≡ some (int output)

  -- The response that stands for a message.
  unfoldable pub translated :
      (id model text reason : Text) (input output : ℤ) (time : ℤ) → ChatCompletionResponse F
  translated id model text reason input output time = record {
    id = id;
    object = codes "chat.completion";
    created = time;
    model = model;
    choices =
        record {
          index = pos 0;
          message = record {
            role = Role.assistant;
            content = some text;
            name = none;
            extra = empty;
          };
          finish_reason = some (finish_reasons reason);
          extra = empty;
        }
        ∷ [];
    usage = record {
      prompt_tokens = input;
      completion_tokens = output;
      total_tokens = input +ℤ output;
      extra = empty;
    };
    extra = empty;
  }

  -- How the models' fields read texts, and three whole numbers as a usage.
  pub record IsValidating (p : Pydantic F) : Type 0 where
    pub str_lem : (s : Text) → p.str_value (str s) ≡ ok s
    pub usage_lem :
        (i o t : ℤ)
        → p.usage_value (
            field (codes "prompt_tokens") (int i) (
              field
                (codes "completion_tokens")
                (int o)
                (field (codes "total_tokens") (int t) empty)))
          ≡ ok
              (record { prompt_tokens = i; completion_tokens = o; total_tokens = t; extra = empty })

  joined_text :
      {vs : Items F} {text : Text}
      → Content vs text
      → (parts : List (Json F)) × (block_texts (elements vs) ≡ ok parts)
        × (join_parts parts ≡ ok text)
  unfolding block_texts elements join_parts get_of is_text_kind or_default text_eq
  joined_text no_blocks = ([], refl, refl)
  joined_text (text_block s kind text h) =
      let (parts, read, joined) = joined_text h in
      (str s ∷ parts, rw (kind, text, read) refl, rw joined refl)
  joined_text (other_block k kind other h) =
      let (parts, read, joined) = joined_text h in (parts, rw (kind, other, read) refl, joined)

  -- A message of the documented form is translated to a response with its identifier and model,
  -- one choice whose text is that of its `text` blocks one after the other, whatever blocks stand
  -- between them, the finish reason that the table gives, and its two token counts with their sum.
  -- The models' fields are taken to keep texts and whole numbers.
  pub to_openai_response-translated :
      ⦃f : Float F⦄ (p : Pydantic F) (lawful : IsValidating p) (drawn_id : Text) (time : ℤ)
      (requested : Text) (d : Fields F) (id model text reason : Text) (input output : ℤ)
      (m : Message d id model text reason input output)
      → to_openai_response p drawn_id time (obj d) requested
        ≡ ok (translated id model text reason input output time)
  unfolding to_openai_response get_of or_default iterate finish_reason plus translated
  to_openai_response-translated p lawful drawn_id time requested d id model text reason input output
        m =
      let (parts, read, joined) = joined_text m.text_lem in
      rw
        (
          m.content_lem,
          read,
          joined,
          m.usage_lem,
          m.id_lem,
          m.model_lem,
          m.reason_lem,
          m.input_lem,
          m.output_lem,
          lawful.usage_lem input output (input +ℤ output),
          lawful.str_lem id,
          lawful.str_lem model,
        )
        refl
