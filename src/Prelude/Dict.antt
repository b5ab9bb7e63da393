-- ===== src/Prelude/Dict.antt =====
-- Python's `dict` with text keys: an association list in insertion order, which writing a present
-- key keeps. Its keys are distinct.
use mathlib.Core.Path.{◌≡◌, refl}
use mathlib.Core.Logic.{◌≢◌, inl, inr}
use mathlib.Core.Option.{Option, none, some}
use mathlib.Core.List.{List, [], ◌∷◌}
use native.Mathlib.Omega.{arith}
use llm_semantic_caching_lay.Prelude.Tests.{if◌then◌else◌, Bool-cases}
use llm_semantic_caching_lay.Prelude.Lists.{All}
use llm_semantic_caching_lay.Prelude.Strings.{Text, text_eq, text_eq_iff}

abbrev pub Dict {ℓ} : Type ℓ → Type ℓ
Dict V = List (Text × V)

module _ {ℓ} {V : Type ℓ} where
  -- `d.get(k)`.
  unfoldable pub get : Dict V → Text → Option V
  get [] k = none
  get ((j, v) ∷ d) k = if text_eq j k then some v else get d k

  -- `d[k] = v`.
  unfoldable pub put : Dict V → Text → V → Dict V
  put [] k v = (k, v) ∷ []
  put ((j, w) ∷ d) k v = if text_eq j k then (j, v) ∷ d else (j, w) ∷ put d k v

  -- `d.pop(k, None)`.
  unfoldable pub pop : Dict V → Text → Dict V
  pop [] k = []
  pop ((j, v) ∷ d) k = if text_eq j k then d else (j, v) ∷ pop d k

  -- No key stands twice.
  abbrev pub Distinct : Dict V → Type 0
  Distinct [] = Unit
  Distinct ((k, v) ∷ d) = All (λ p. p.0 ≢ k) d × Distinct d

  pub get-put :
      (d : Dict V) (k : Text) (v : V) (j : Text)
      → get (put d k v) j ≡ (if text_eq k j then some v else get d j)
  unfolding get put
  get-put [] k v j = refl
  get-put ((i, w) ∷ d) k v j =
      ground (arith, get-put d k v j, text_eq_iff i k, text_eq_iff i j, text_eq_iff k j)

  put-absent_keys :
      (d : Dict V) (k : Text) (v : V) (i : Text)
      → k ≢ i
      → All (λ p. p.0 ≢ i) d
      → All (λ p. p.0 ≢ i) (put d k v)
  unfolding put
  put-absent_keys [] k v i n h = (n, tt)
  put-absent_keys ((j, w) ∷ d) k v i n h = elim (Bool-cases (text_eq j k)) [
    | inl e ↦ rw e (h.0, h.1)
    | inr e ↦ rw e (h.0, put-absent_keys d k v i n h.1)
  ]

  pub put-Distinct : (d : Dict V) (k : Text) (v : V) → Distinct d → Distinct (put d k v)
  unfolding put
  put-Distinct [] k v h = (tt, tt)
  put-Distinct ((j, w) ∷ d) k v h = elim (Bool-cases (text_eq j k)) [
    | inl e ↦ rw e (h.0, h.1)
    | inr e ↦
        rw e (put-absent_keys d k v j (ground (arith, text_eq_iff j k)) h.0, put-Distinct d k v h.1)
  ]

  -- What is not a key is not found.
  pub get-absent : (d : Dict V) (k : Text) → All (λ p. p.0 ≢ k) d → get d k ≡ none
  unfolding get
  get-absent [] k h = refl
  get-absent ((j, v) ∷ d) k h = ground (arith, get-absent d k h.1, text_eq_iff j k)
