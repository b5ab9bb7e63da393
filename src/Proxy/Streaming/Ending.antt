-- ===== src/Proxy/Streaming/Ending.antt =====
-- The loop of `push`, `while b"\n\n" in self._buffer`, ends.
use llm_semantic_caching_lay.Prelude.{
  ℕ, zero, suc, ◌≤◌, ◌≡◌, ◌⊎◌, refl, sym, subst, ◌∙◌, inl, inr, none, ◌++◌, length, Text, Result,
  ok, raise, Error, continue, arith, Option,
}
use llm_semantic_caching_lay.Float.{Float}
use llm_semantic_caching_lay.Models.Json.{Json}
use llm_semantic_caching_lay.Proxy.Streaming.{
  StreamAssembler, Assembled, split_event, consume_event, drain, push,
}
use llm_semantic_caching_lay.Proxy.Streaming.Pushing.{drained}
use llm_semantic_caching_lay.Proxy.Streaming.Frames.{frames-split_event}

module _ {F : Type 0} ⦃f : Float F⦄ (loads : Text → Option (Json F)) where
  abbrev loop : ℕ → StreamAssembler F → Result (Unit {0}) × StreamAssembler F
  loop = drain loads

  -- What follows one pass, where the loop goes on.
  abbrev next :
      StreamAssembler F
      → Text
      → ℕ
      → Result (Unit {0}) × Assembled F
      → Result (Unit {0}) × StreamAssembler F
  next s r n read = continue (read.0, record s { buffer = r; assembled = read.1 }) (λ u. loop n)

  -- An empty buffer holds no event.
  short_ends : (s : StreamAssembler F) → length s.buffer ≤ 0 → split_event s.buffer ≡ none
  short_ends s h = elim (frames-split_event s.buffer) [
    | inl (a, b) ↦ a
    | inr (e, r, a, b, short) ↦ absurd (omega (arith, short, h))
  ]

  next_agrees :
      (s : StreamAssembler F) (r : Text) (n m : ℕ) (read : Result (Unit {0}) × Assembled F)
      → ((a : Assembled F)
          → loop n (record s { buffer = r; assembled = a })
            ≡ loop m (record s { buffer = r; assembled = a }))
      → next s r n read ≡ next s r m read
  next_agrees s r n m (ok u, a) h = h a
  next_agrees s r n m (raise x, a) h = refl

  -- All bounds that the buffer does not exceed give the same.
  loop_agrees :
      (n m : ℕ) (s : StreamAssembler F)
      → length s.buffer ≤ n
      → length s.buffer ≤ m
      → loop n s ≡ loop m s
  unfolding drain
  loop_agrees zero m s h k = sym (drained loads m s (short_ends s h))
  loop_agrees (suc n) zero s h k = drained loads (suc n) s (short_ends s k)
  loop_agrees (suc n) (suc m) s h k = elim (frames-split_event s.buffer) [
    | inl (a, b) ↦ drained loads (suc n) s a ∙ sym (drained loads (suc m) s a)
    | inr (e, r, a, b, short) ↦
        rw (a, drain)
          (next_agrees s r n m (consume_event loads e s.assembled) (λ c.
            loop_agrees n m (record s { buffer = r; assembled = c }) (omega (arith, short, h))
              (omega (arith, short, k))))
  ]

  -- The loop raises, or leaves no event in the buffer.
  abbrev pub Ended : Result (Unit {0}) × StreamAssembler F → Type 0
  Ended t = ((x : Error) × (t.0 ≡ raise x)) ⊎ (split_event t.1.buffer ≡ none)

  next_ends :
      (s : StreamAssembler F) (r : Text) (n : ℕ) (read : Result (Unit {0}) × Assembled F)
      → ((a : Assembled F) → Ended (loop n (record s { buffer = r; assembled = a })))
      → Ended (next s r n read)
  next_ends s r n (ok u, a) h = h a
  next_ends s r n (raise x, a) h = inl (x, refl)

  loop_ends : (n : ℕ) (s : StreamAssembler F) → length s.buffer ≤ n → Ended (loop n s)
  unfolding drain
  loop_ends zero s h = inr (short_ends s h)
  loop_ends (suc n) s h = elim (frames-split_event s.buffer) [
    | inl (a, b) ↦ subst Ended (sym (drained loads (suc n) s a)) (inr a)
    | inr (e, r, a, b, short) ↦
        rw (a, drain)
          (next_ends s r n (consume_event loads e s.assembled)
            (λ c. loop_ends n (record s { buffer = r; assembled = c }) (omega (arith, short, h))))
  ]

  -- The loop over the events in the buffer ends: a push comes to the same with any number of passes
  -- that the buffer and the chunk together do not exceed in bytes, and when it ends, it has raised
  -- or no complete event is left in the buffer.
  pub push-ends :
      (chunk : Text) (s : StreamAssembler F) (passes : ℕ)
      → length (s.buffer ++ chunk) ≤ passes
      → (push loads chunk s ≡ drain loads passes (record s { buffer = s.buffer ++ chunk }))
        × Ended (push loads chunk s)
  unfolding push
  push-ends chunk s passes enough =
      let t : StreamAssembler F = record s { buffer = s.buffer ++ chunk } in
      (
        loop_agrees (length (s.buffer ++ chunk)) passes t (omega arith) enough,
        loop_ends (length (s.buffer ++ chunk)) t (omega arith),
      )
