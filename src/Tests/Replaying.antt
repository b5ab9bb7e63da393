-- ===== src/Tests/Replaying.antt =====
-- A response rendered with a small JSON writer, cut in pieces, and read again.
use llm_semantic_caching_lay.Prelude.{
  ◌≡◌, refl, Bool, true, false, not, ◌&&◌, Option, none, some, [], ◌∷◌, ◌++◌, take, drop, length,
  ◌-◌, ◌==◌, Text, codes, text_eq, Result, ok, raise, type_error, and_then, if◌then◌else◌, arith,
}
use llm_semantic_caching_lay.Prelude.Int.{ℤ, pos}
use llm_semantic_caching_lay.Prelude.Decimal.{str_int}
use llm_semantic_caching_lay.Float.Decimals.{decimals}
use llm_semantic_caching_lay.Models.Json.{
  Json, null, boolean, int, float, str, arr, obj, Items, nil, cons, Fields, empty, field,
}
use llm_semantic_caching_lay.Models.Chat.{Role, ChatCompletionResponse, first_text}
use llm_semantic_caching_lay.Proxy.Streaming.{Pydantic}
use llm_semantic_caching_lay.Proxy.Streaming.Pushing.{concat}
use llm_semantic_caching_lay.Proxy.Streaming.Rendering.{
  role_chunk, content_chunk, final_chunk, optional, finish_of, response_to_sse,
}
use llm_semantic_caching_lay.Proxy.Streaming.Rendering.Events.{IsLine, IsEncoded}
use llm_semantic_caching_lay.Proxy.Streaming.Rendering.Replay.{IsRendered}
use llm_semantic_caching_lay.Proxy.Streaming.Rendering.ReadBack.{
  divide, received, rebuilt, IsValidating, received-response_to_sse,
}
use llm_semantic_caching_lay.Tests.Serving.{response}

abbrev quoted : Text → Text
quoted s = b'"' ∷ (s ++ (b'"' ∷ []))

mutual
  write : Json ℤ → Text
  write null = codes "null"
  write (boolean true) = codes "true"
  write (boolean false) = codes "false"
  write (int z) = str_int z
  write (float x) = codes "0.0"
  write (str s) = quoted s
  write (arr vs) = b'[' ∷ (write_items vs ++ codes "]")
  write (obj d) = b'{' ∷ (write_fields d ++ codes "}")

  write_items : Items ℤ → Text
  write_items nil = []
  write_items (cons v nil) = write v
  write_items (cons v (cons w vs)) = write v ++ (b',' ∷ write_items (cons w vs))

  write_fields : Fields ℤ → Text
  write_fields empty = []
  write_fields (field k v empty) = quoted k ++ (b':' ∷ write v)
  write_fields (field k v (field j w d)) =
      quoted k ++ (b':' ∷ (write v ++ (b',' ∷ write_fields (field j w d))))

dumps : Json ℤ → Result Text
unfolding write
dumps v = ok (write v)

abbrev said : ChatCompletionResponse ℤ
said = record response {
  choices =
      record {
        index = pos 0;
        message = record {
          role = Role.assistant;
          content = some (codes "hello there");
          name = none;
          extra = empty;
        };
        finish_reason = some (codes "length");
        extra = empty;
      }
      ∷ [];
}

loads : Text → Option (Json ℤ)
unfolding write role_chunk content_chunk final_chunk
loads t =
    if text_eq t (write (role_chunk said))
    then some (role_chunk said)
    else if text_eq t (write (content_chunk said))
    then some (content_chunk said)
    else if text_eq t (write (final_chunk said))
    then some (final_chunk said)
    else none

one_line : Text → Bool
one_line [] = true
one_line (c ∷ s) = not (c == 10) && one_line s

one_line-IsLine : (s : Text) → one_line s ≡ true → IsLine s
unfolding one_line
one_line-IsLine [] h = tt
one_line-IsLine (c ∷ s) h = (ground (arith, h), one_line-IsLine s (ground (arith, h)))

role-IsEncoded : IsEncoded dumps loads (role_chunk said)
unfolding dumps loads write one_line role_chunk content_chunk final_chunk text_eq str_int
role-IsEncoded = record {
  written = write (role_chunk said);
  dumps_lem = refl;
  loads_lem = refl;
  IsLine_lem = one_line-IsLine (write (role_chunk said)) refl;
  behind = drop 1 (write (role_chunk said));
  opened = refl;
  before = take (length (write (role_chunk said)) - 1) (write (role_chunk said));
  closed = refl;
}

content-IsEncoded : IsEncoded dumps loads (content_chunk said)
unfolding dumps loads write one_line role_chunk content_chunk final_chunk text_eq str_int first_text
content-IsEncoded = record {
  written = write (content_chunk said);
  dumps_lem = refl;
  loads_lem = refl;
  IsLine_lem = one_line-IsLine (write (content_chunk said)) refl;
  behind = drop 1 (write (content_chunk said));
  opened = refl;
  before = take (length (write (content_chunk said)) - 1) (write (content_chunk said));
  closed = refl;
}

final-IsEncoded : IsEncoded dumps loads (final_chunk said)
unfolding dumps loads write one_line role_chunk content_chunk final_chunk text_eq str_int optional
    finish_of
final-IsEncoded = record {
  written = write (final_chunk said);
  dumps_lem = refl;
  loads_lem = refl;
  IsLine_lem = one_line-IsLine (write (final_chunk said)) refl;
  behind = drop 1 (write (final_chunk said));
  opened = refl;
  before = take (length (write (final_chunk said)) - 1) (write (final_chunk said));
  closed = refl;
}

said-IsRendered : IsRendered dumps loads said
said-IsRendered = record {
  role = role-IsEncoded;
  content = content-IsEncoded;
  final = final-IsEncoded;
}

fields : Pydantic ℤ
fields = record {
  str_value = λ v. elim v [ str s ↦ ok s | _ ↦ raise type_error ];
  int_value = λ v. elim v [ int z ↦ ok z | _ ↦ raise type_error ];
  usage_value = λ d. raise type_error;
}

fields-IsValidating : IsValidating fields
unfolding fields
fields-IsValidating = record { str_lem = λ s. refl; int_lem = λ z. refl }

received-response_to_sse_example :
    and_then (response_to_sse dumps said) (λ chunks.
      received loads fields
        (codes "new")
        (pos 9)
        (codes "gpt-4o")
        (divide (3 ∷ 50 ∷ 1 ∷ []) (concat chunks)))
    ≡ ok (rebuilt (codes "new") (pos 9) (codes "gpt-4o") said)
received-response_to_sse_example =
    received-response_to_sse fields fields-IsValidating dumps loads said said-IsRendered
      (3 ∷ 50 ∷ 1 ∷ []) (codes "new") (pos 9) (codes "gpt-4o")
