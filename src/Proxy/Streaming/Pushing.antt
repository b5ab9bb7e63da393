-- ===== src/Proxy/Streaming/Pushing.antt =====
-- A stream read chunk by chunk, and read at once.
use llm_semantic_caching_lay.Prelude.{
  ℕ, zero, suc, ◌≤◌, ◌≡◌, refl, sym, ap, ◌∙◌, inl, inr, Option, none, List, [], ◌∷◌, ◌++◌,
  append_assoc, append-nil, length, arith, Text, Exec, Result, ok, raise, Error, continue,
}
use llm_semantic_caching_lay.Float.{Float}
use llm_semantic_caching_lay.Models.Json.{Json}
use llm_semantic_caching_lay.Proxy.Streaming.{
  Assembled, StreamAssembler, nothing, init, split_event, consume_event, drain, push, push_all,
}
use llm_semantic_caching_lay.Proxy.Streaming.Frames.{
  frames, frames-split_event, frames-append, rest-frames,
}

-- All bytes of a stream.
abbrev pub concat : List Text → Text
concat [] = []
concat (c ∷ cs) = c ++ concat cs

continue-after :
    {S A B C : Type 0} (r : Result A × S) (k : A → Exec S B) (l : B → Exec S C) (m : A → Exec S C)
    → ((a : A) (s : S) → m a s ≡ continue (k a s) l)
    → continue r m ≡ continue (continue r k) l
continue-after (ok a, s) k l m h = h a s
continue-after (raise x, s) k l m h = refl

no_event : (t : Text) → (frames t).0 ≡ [] → frames t ≡ ([], t)
no_event t h = elim (frames-split_event t) [
  | inl (a, b) ↦ b
  | inr (e, r, a, b, short) ↦
      let same : Path (List Text) (e ∷ (frames r).0) [] = sym (ap (λ p. p.0) b) ∙ h in absurd (cc)
]

frames-two :
    (t c u : Text)
    → frames (t ++ (c ++ u)) ≡ (
      (frames (t ++ c)).0 ++ (frames ((frames (t ++ c)).1 ++ u)).0,
      (frames ((frames (t ++ c)).1 ++ u)).1,
    )
frames-two t c u =
    ap frames (sym (append_assoc t c u)) ∙ frames-append (length (t ++ c)) (t ++ c) u (omega arith)

module _ {F : Type 0} ⦃f : Float F⦄ (loads : Text → Option (Json F)) where
  -- The events read one after the other, until one raises.
  unfoldable pub consume_all : List Text → Exec (Assembled F) (Unit {0})
  consume_all [] a = (ok tt, a)
  consume_all (e ∷ es) a = continue (consume_event loads e a) (λ u. consume_all es)

  consume_all-append :
      (es gs : List Text) (a : Assembled F)
      → consume_all (es ++ gs) a ≡ continue (consume_all es a) (λ u. consume_all gs)
  unfolding consume_all
  consume_all-append [] gs a = refl
  consume_all-append (e ∷ es) gs a =
      continue-after (consume_event loads e a) (λ u. consume_all es) (λ u. consume_all gs)
        (λ u b. consume_all (es ++ gs) b) (λ u b. consume_all-append es gs b)

  -- The assembler after it has read events that gave `read`, with `rest` left: on an error, what
  -- was merged stays, and the buffer is not said.
  pub data Left (s : StreamAssembler F) (rest : Text) (read : Result (Unit {0}) × Assembled F)
      (t : Result (Unit {0}) × StreamAssembler F) : Type 0 where
    finished :
        (a : Assembled F)
        → read ≡ (ok tt, a)
        → t ≡ (ok tt, record s { buffer = rest; assembled = a })
        → Left s rest read t
    stopped :
        (x : Error) (a : Assembled F) (b : Text)
        → read ≡ (raise x, a)
        → t ≡ (raise x, record s { buffer = b; assembled = a })
        → Left s rest read t

  Left-after :
      (s : StreamAssembler F) (rest r : Text) (es : List Text)
      (k : Exec (StreamAssembler F) (Unit {0}))
      → ((a : Assembled F)
          → Left s rest (consume_all es a) (k (record s { buffer = r; assembled = a })))
      → (read : Result (Unit {0}) × Assembled F)
      → Left s rest
          (continue read (λ u. consume_all es))
          (continue (read.0, record s { buffer = r; assembled = read.1 }) (λ u. k))
  Left-after s rest r es k h (ok u, a) = h a
  Left-after s rest r es k h (raise x, a) = stopped x a r refl refl

  pub drained :
      (n : ℕ) (s : StreamAssembler F) → split_event s.buffer ≡ none → drain loads n s ≡ (ok tt, s)
  unfolding drain
  drained zero s a = refl
  drained (suc n) s a = rw (a, drain) refl

  Left-again :
      {s : StreamAssembler F} {b : Text} {a : Assembled F} {rest : Text}
      {read : Result (Unit {0}) × Assembled F} {t : Result (Unit {0}) × StreamAssembler F}
      → Left (record s { buffer = b; assembled = a }) rest read t
      → Left s rest read t
  Left-again (finished a r t) = finished a r t
  Left-again (stopped x a b r t) = stopped x a b r t

  drain_lem :
      (n : ℕ) (s : StreamAssembler F)
      → length s.buffer ≤ n
      → Left s (frames s.buffer).1 (consume_all (frames s.buffer).0 s.assembled) (drain loads n s)
  unfolding drain consume_all
  drain_lem zero s h = elim (frames-split_event s.buffer) [
    | inl (a, b) ↦ rw b (finished s.assembled refl refl)
    | inr (e, r, a, b, short) ↦ absurd (omega (arith, short, h))
  ]
  drain_lem (suc n) s h = elim (frames-split_event s.buffer) [
    | inl (a, b) ↦ rw b (finished s.assembled refl (drained (suc n) s a))
    | inr (e, r, a, b, short) ↦
        rw (a, b, drain)
          (Left-after s (frames r).1 r (frames r).0 (drain loads n)
            (λ c.
              Left-again
                (drain_lem n (record s { buffer = r; assembled = c }) (omega (arith, short, h))))
            (consume_event loads e s.assembled))
  ]

  push_lem :
      (c : Text) (s : StreamAssembler F)
      → Left s
          (frames (s.buffer ++ c)).1
          (consume_all (frames (s.buffer ++ c)).0 s.assembled)
          (push loads c s)
  unfolding push
  push_lem c s =
      Left-again
        (drain_lem (length (s.buffer ++ c)) (record s { buffer = s.buffer ++ c }) (omega arith))

  push_all_lem :
      (cs : List Text) (s : StreamAssembler F)
      → (frames s.buffer).0 ≡ []
      → Left s
          (frames (s.buffer ++ concat cs)).1
          (consume_all (frames (s.buffer ++ concat cs)).0 s.assembled)
          (push_all loads cs s)
  unfolding push_all consume_all
  push_all_lem [] s h =
      rw (append-nil s.buffer, no_event s.buffer h) (finished s.assembled refl refl)
  push_all_lem (c ∷ cs) s h = elim (push_lem c s) [
    | finished a r t ↦
        rw (frames-two s.buffer c (concat cs), consume_all-append, r, t)
          (Left-again (
            push_all_lem cs (record s { buffer = (frames (s.buffer ++ c)).1; assembled = a })
              (rest-frames (length (s.buffer ++ c)) (s.buffer ++ c) (omega arith))))
    | stopped x a b r t ↦
        rw (frames-two s.buffer c (concat cs), consume_all-append, r, t) (stopped x a b refl refl)
  ]

  -- However the bytes of a stream are divided into chunks, pushing the chunks into a new assembler
  -- ends as reading the complete events of all the bytes one after the other does: with the same
  -- error and the same content if one raises, and otherwise with the same content, and with the
  -- bytes behind the last complete event in the buffer.
  pub push_all-frames :
      (model : Text) (chunks : List Text)
      → Left
          (init model)
          (frames (concat chunks)).1
          (consume_all (frames (concat chunks)).0 nothing)
          (push_all loads chunks (init model))
  unfolding frames
  push_all-frames model chunks = push_all_lem chunks (init model) refl
