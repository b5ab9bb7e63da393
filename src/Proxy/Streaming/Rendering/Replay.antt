-- ===== src/Proxy/Streaming/Rendering/Replay.antt =====
-- A response rendered as a stream, and the response that is built of the stream's bytes.
use llm_semantic_caching_lay.Prelude.{
  ◌≡◌, refl, ap, sym, ◌∙◌, true, inl, inr, List-cases, Option, none, some, List, [], ◌∷◌, ◌++◌,
  append_assoc, strip, drop_while, is_byte_space, starts_with, Text, codes, text_eq, truthy, Result,
  ok, raise, if◌then◌else◌,
}
use llm_semantic_caching_lay.Float.{Float}
use llm_semantic_caching_lay.Models.Json.{
  Json, null, int, str, get, get_of, or_default, iterate, elements, is_true, Fields,
}
use llm_semantic_caching_lay.Models.Chat.{ChatCompletionResponse, first_text}
use llm_semantic_caching_lay.Proxy.Streaming.{
  Assembled, nothing, init, consume_event, consume_lines, consume_line, split_lines, merge,
  merge_choices, merge_choice, push_all,
}
use llm_semantic_caching_lay.Proxy.Streaming.Frames.{frames}
use llm_semantic_caching_lay.Proxy.Streaming.Pushing.{
  concat, consume_all, push_all-frames, finished, stopped,
}
use llm_semantic_caching_lay.Proxy.Streaming.Rendering.{
  done, optional, chunk, role_chunk, content_chunk, final_chunk, finish_of, sse, response_to_sse,
}
use llm_semantic_caching_lay.Proxy.Streaming.Rendering.Events.{
  IsEncoded, data_line, data_line-IsLine, frames-line, consume_event-data,
}

module _ {F : Type 0} ⦃f : Float F⦄ where
  -- What the events of a rendered response leave.
  -- A finish reason that is true.
  abbrev pub finish_value : Option Text → Json F
  finish_value none = null
  finish_value (some []) = null
  finish_value (some (c ∷ s)) = str (c ∷ s)

  unfoldable pub replayed : ChatCompletionResponse F → Assembled F
  replayed r = record {
    content_parts = if truthy (first_text r) then str (first_text r) ∷ [] else [];
    finish_reason = finish_value (finish_of r);
    id = str r.id;
    created = int r.created;
    usage = null;
    completed = true;
  }

  abbrev started : ChatCompletionResponse F → Assembled F
  started r = record nothing { id = str r.id; created = int r.created }

  merge-role : (r : ChatCompletionResponse F) → merge (role_chunk r) nothing ≡ (ok tt, started r)
  unfolding merge merge_choices merge_choice role_chunk get get_of or_default iterate elements
      is_true text_eq
  merge-role r = refl

  abbrev told : ChatCompletionResponse F → Assembled F
  told r = record (started r) {
    content_parts = if truthy (first_text r) then str (first_text r) ∷ [] else [];
  }

  merge-content :
      (r : ChatCompletionResponse F) → merge (content_chunk r) (started r) ≡ (ok tt, told r)
  unfolding merge merge_choices merge_choice content_chunk get get_of or_default iterate elements
      is_true text_eq
  merge-content r = elim (List-cases (first_text r)) [
    | inl e ↦ rw (e, merge_choice) refl
    | inr (c, s, e) ↦ rw (e, merge_choice) refl
  ]

  merge-finish :
      (r : ChatCompletionResponse F) (t : Option Text)
      → merge (chunk r Fields.empty (optional t)) (told r)
        ≡ (ok tt, record (told r) { finish_reason = finish_value t })
  unfolding chunk merge merge_choices merge_choice get get_of or_default iterate elements is_true
      text_eq optional
  merge-finish r none = refl
  merge-finish r (some []) = refl
  merge-finish r (some (c ∷ s)) = refl

  merge-final :
      (r : ChatCompletionResponse F)
      → merge (final_chunk r) (told r)
        ≡ (ok tt, record (told r) { finish_reason = finish_value (finish_of r) })
  unfolding final_chunk chunk
  merge-final r = merge-finish r (finish_of r)

  consume_event-done :
      (loads : Text → Option (Json F)) (a : Assembled F)
      → consume_event loads (codes "data: [DONE]") a ≡ (ok tt, record a { completed = true })
  unfolding consume_event consume_lines consume_line split_lines strip drop_while is_byte_space
      text_eq starts_with
  consume_event-done loads a = refl

  -- The three dictionaries that are rendered, and how their texts are read.
  pub record IsRendered (dumps : Json F → Result Text) (loads : Text → Option (Json F))
      (r : ChatCompletionResponse F) : Type 0 where
    pub role : IsEncoded dumps loads (role_chunk r)
    pub content : IsEncoded dumps loads (content_chunk r)
    pub final : IsEncoded dumps loads (final_chunk r)

  module _ (dumps : Json F → Result Text) (loads : Text → Option (Json F))
      (r : ChatCompletionResponse F) (e : IsRendered dumps loads r) where
    abbrev ended : Text → Text
    ended s = data_line s ++ codes "\n\n"

    abbrev pub chunks : List Text
    chunks = ended e.role.written ∷ ended e.content.written ∷ ended e.final.written ∷ done ∷ []

    pub response_to_sse-chunks : response_to_sse dumps r ≡ ok chunks
    unfolding response_to_sse sse
    response_to_sse-chunks = rw (e.role.dumps_lem, e.content.dumps_lem, e.final.dumps_lem) refl

    consume_all-replayed :
        consume_all loads
          (data_line e.role.written
            ∷ data_line e.content.written
            ∷ data_line e.final.written
            ∷ codes "data: [DONE]"
            ∷ [])
          nothing
        ≡ (ok tt, replayed r)
    unfolding consume_all replayed
    consume_all-replayed =
        rw
          (
            consume_event-data dumps loads (role_chunk r) e.role nothing (started r) (merge-role r),
            consume_event-data dumps loads (content_chunk r) e.content (started r) (told r)
                (merge-content r),
            consume_event-data dumps loads (final_chunk r) e.final (told r)
                (record (told r) { finish_reason = finish_value (finish_of r) }) (merge-final r),
            consume_event-done loads
                (record (told r) { finish_reason = finish_value (finish_of r) }),
          )
          refl

    frames-ended :
        (v : Json F) (w : IsEncoded dumps loads v) (rest : Text)
        → frames (ended w.written ++ rest)
          ≡ (data_line w.written ∷ (frames rest).0, (frames rest).1)
    frames-ended v w rest =
        ap frames (append_assoc (data_line w.written) (codes "\n\n") rest)
        ∙ frames-line (data_line w.written) rest (data_line-IsLine w.written w.IsLine_lem)

    frames-chunks : frames (concat chunks) ≡ (
      data_line e.role.written
          ∷ data_line e.content.written
          ∷ data_line e.final.written
          ∷ codes "data: [DONE]"
          ∷ [],
      [],
    )
    unfolding frames
    frames-chunks =
        frames-ended (role_chunk r) e.role _
        ∙ rw
            (
              frames-ended (content_chunk r) e.content (ended e.final.written ++ (done ++ [])),
              frames-ended (final_chunk r) e.final (done ++ []),
            )
            refl

    parts_lem :
        (parts : List Text)
        → concat parts ≡ concat chunks
        → frames (concat parts) ≡ (
          data_line e.role.written
              ∷ data_line e.content.written
              ∷ data_line e.final.written
              ∷ codes "data: [DONE]"
              ∷ [],
          [],
        )
    parts_lem parts h = ap frames h ∙ frames-chunks

    consume_all-parts :
        (parts : List Text)
        → concat parts ≡ concat chunks
        → consume_all loads (frames (concat parts)).0 nothing ≡ (ok tt, replayed r)
    consume_all-parts parts h =
        ap (λ q. consume_all loads q.0 nothing) (parts_lem parts h) ∙ consume_all-replayed

    -- The assembler at the end, however the bytes are divided.
    pub push_all-replayed :
        (model : Text) (parts : List Text)
        → concat parts ≡ concat chunks
        → push_all loads parts (init model)
          ≡ (ok tt, record (init model) { assembled = replayed r })
    unfolding replayed
    push_all-replayed model parts h = elim (push_all-frames loads model parts) [
      | finished a read t ↦
          let same : Path (Result (Unit {0}) × Assembled F) (ok tt, a) (ok tt, replayed r) =
            sym read ∙ consume_all-parts parts h in
          rw (t, parts_lem parts h)
            (ap (λ q. (ok tt, record (init model) { buffer = []; assembled = q }))
              (ap (λ q. q.1) same))
      | stopped x a b read t ↦
          let same : Path (Result (Unit {0}) × Assembled F) (raise x, a) (ok tt, replayed r) =
            sym read ∙ consume_all-parts parts h in
          absurd (cc)
    ]
