-- ===== src/Proxy/Streaming/Frames.antt =====
-- Where the events of a stream end.
use llm_semantic_caching_lay.Prelude.{
  ℕ, zero, suc, ◌+◌, ◌≤◌, ◌≡◌, ◌⊎◌, refl, sym, ap, ◌∙◌, inl, inr, Bool-cases, ◌&&◌, Option, none,
  some, List, [], ◌∷◌, ◌++◌, length, ◌==◌, arith, Text, if◌then◌else◌,
}
use llm_semantic_caching_lay.Proxy.Streaming.{split_event}

-- A byte put before what the events and the rest were read from.
abbrev extend : ℕ → List Text × Text → List Text × Text
extend c ([], r) = ([], c ∷ r)
extend c (e ∷ es, r) = ((c ∷ e) ∷ es, r)

-- A chunk put behind the rest.
abbrev continued : Text → Option (Text × Text) → Option (Text × Text)
continued u none = none
continued u (some (e, r)) = some (e, r ++ u)

-- The events that a text holds whole, and what follows the last of them.
unfoldable pub frames : Text → List Text × Text
frames [] = ([], [])
frames (c ∷ []) = ([], c ∷ [])
frames (c ∷ d ∷ s) =
    let rest = frames (d ∷ s) in
    let after = frames s in if c == 10 && d == 10 then ([] ∷ after.0, after.1) else extend c rest

-- The first cut decides the frames.
pub frames-split_event :
    (t : Text)
    → ((split_event t ≡ none) × (frames t ≡ ([], t)))
      ⊎ ((e : Text) × (r : Text) × (split_event t ≡ some (e, r))
          × (frames t ≡ (e ∷ (frames r).0, (frames r).1))
          × (length r + 2 ≤ length t))
unfolding split_event frames
frames-split_event [] = inl (refl, refl)
frames-split_event (c ∷ []) = inl (refl, refl)
frames-split_event (c ∷ d ∷ s) = elim (Bool-cases (c == 10 && d == 10)) [
  | inl cut ↦ rw cut (inr ([], s, refl, refl, omega arith))
  | inr on ↦ elim (frames-split_event (d ∷ s)) [
    | inl (a, b) ↦ inl (rw (on, a) refl, rw on (ap (extend c) b))
    | inr (e, r, a, b, short) ↦
        inr (c ∷ e, r, rw (on, a) refl, rw on (ap (extend c) b), omega (arith, short))
  ]
]

frames-cut :
    (t e r : Text) → split_event t ≡ some (e, r) → frames t ≡ (e ∷ (frames r).0, (frames r).1)
frames-cut t e r h = elim (frames-split_event t) [
  | inl (a, b) ↦ absurd (cc)
  | inr (e1, r1, a, b, short) ↦
      let same : Path (Option (Text × Text)) (some (e1, r1)) (some (e, r)) = sym a ∙ h in cc
]

-- A later chunk does not move the first cut.
split_event-append :
    (t u e r : Text) → split_event t ≡ some (e, r) → split_event (t ++ u) ≡ some (e, r ++ u)
unfolding split_event
split_event-append [] u e r h = cc
split_event-append (c ∷ []) u e r h = cc
split_event-append (c ∷ d ∷ s) u e r h = elim (Bool-cases (c == 10 && d == 10)) [
  | inl cut ↦
      let same : Path (Option (Text × Text)) (some ([], s)) (some (e, r)) = sym (rw cut refl) ∙ h in
      rw cut (ap (continued u) same)
  | inr on ↦ elim (frames-split_event (d ∷ s)) [
    | inl (a, b) ↦
        let same : Path (Option (Text × Text)) none (some (e, r)) = sym (rw (on, a) refl) ∙ h in
        absurd (cc)
    | inr (e1, r1, a, b, short) ↦
        let same : Path (Option (Text × Text)) (some (c ∷ e1, r1)) (some (e, r)) =
          sym (rw (on, a) refl) ∙ h in
        rw (on, split_event-append (d ∷ s) u e1 r1 a) (ap (continued u) same)
  ]
]

-- The frames of a text that is continued: those it had, then those of what was left and the rest.
pub frames-append :
    (n : ℕ) (t u : Text)
    → length t ≤ n
    → frames (t ++ u)
      ≡ ((frames t).0 ++ (frames ((frames t).1 ++ u)).0, (frames ((frames t).1 ++ u)).1)
frames-append zero t u h = elim (frames-split_event t) [
  | inl (a, b) ↦ rw b refl
  | inr (e, r, a, b, short) ↦ absurd (omega (arith, short, h))
]
frames-append (suc n) t u h = elim (frames-split_event t) [
  | inl (a, b) ↦ rw b refl
  | inr (e, r, a, b, short) ↦
      rw (b, frames-cut (t ++ u) e (r ++ u) (split_event-append t u e r a))
        (ap (λ p. (e ∷ p.0, p.1)) (frames-append n r u (omega (arith, short, h))))
]

-- What is left after the last event holds no event.
pub rest-frames : (n : ℕ) (t : Text) → length t ≤ n → (frames (frames t).1).0 ≡ []
rest-frames zero t h = elim (frames-split_event t) [
  | inl (a, b) ↦ rw (b, b) refl
  | inr (e, r, a, b, short) ↦ absurd (omega (arith, short, h))
]
rest-frames (suc n) t h = elim (frames-split_event t) [
  | inl (a, b) ↦ rw (b, b) refl
  | inr (e, r, a, b, short) ↦ rw b (rest-frames n r (omega (arith, short, h)))
]
