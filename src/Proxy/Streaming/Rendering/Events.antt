-- ===== src/Proxy/Streaming/Rendering/Events.antt =====
-- How the assembler reads one event whose only line holds a JSON text.
use mathlib.Core.List.{reverse-append, reverse-reverse}
use llm_semantic_caching_lay.Prelude.{
  ℕ, ◌≡◌, refl, sym, ap, ◌∙◌, Bool, false, Option, some, [], ◌∷◌, ◌++◌, reverse, ◌==◌, All, Text,
  codes, drop, starts_with, text_eq, drop_while, strip, is_byte_space, Result, ok,
}
use llm_semantic_caching_lay.Float.{Float}
use llm_semantic_caching_lay.Models.Json.{Json}
use llm_semantic_caching_lay.Proxy.Streaming.{
  Assembled, split_lines, consume_line, consume_lines, consume_event, merge,
}
use llm_semantic_caching_lay.Proxy.Streaming.Frames.{frames}

-- No line ends within the text.
abbrev pub IsLine : Text → Type 0
IsLine s = All (λ c. (c == 10) ≡ false) s

-- What the program relies on of `orjson` at one dictionary: it is written between braces in one
-- line, which is read back as that dictionary.
pub record IsEncoded {F : Type 0} (dumps : Json F → Result Text) (loads : Text → Option (Json F))
    (v : Json F) : Type 0 where
  pub written : Text
  pub dumps_lem : dumps v ≡ ok written
  pub loads_lem : loads written ≡ some v
  pub IsLine_lem : IsLine written
  pub behind : Text
  pub opened : written ≡ b'{' ∷ behind
  pub before : Text
  pub closed : written ≡ before ++ (b'}' ∷ [])

-- A line that carries a text.
abbrev pub data_line : Text → Text
data_line s = codes "data: " ++ s

drop_while-first : (p : ℕ → Bool) (c : ℕ) (s : Text) → p c ≡ false → drop_while p (c ∷ s) ≡ c ∷ s
unfolding drop_while
drop_while-first p c s h = rw h refl

strip-trimmed :
    (p : ℕ → Bool) (s behind before : Text) (first last : ℕ)
    → s ≡ first ∷ behind
    → p first ≡ false
    → s ≡ before ++ (last ∷ [])
    → p last ≡ false
    → strip p s ≡ s
unfolding strip
strip-trimmed p s behind before first last a ha b hb =
    ap (λ t. reverse (drop_while p (reverse t)))
      (ap (drop_while p) a ∙ drop_while-first p first behind ha ∙ sym a ∙ b)
    ∙ ap (λ t. reverse (drop_while p t)) (reverse-append before (last ∷ []))
    ∙ ap reverse
        (drop_while-first p last (reverse before) hb ∙ sym (reverse-append before (last ∷ [])))
    ∙ reverse-reverse (before ++ (last ∷ []))
    ∙ sym b

strip-data_line :
    (s behind before : Text)
    → s ≡ b'{' ∷ behind
    → s ≡ before ++ (b'}' ∷ [])
    → strip is_byte_space (data_line s) ≡ data_line s
unfolding is_byte_space
strip-data_line s behind before a b =
    strip-trimmed is_byte_space (data_line s) (drop 1 (data_line s)) (codes "data: " ++ before) b'd'
      b'}' refl refl (ap (λ t. codes "data: " ++ t) b) refl

strip-payload :
    (s behind before : Text)
    → s ≡ b'{' ∷ behind
    → s ≡ before ++ (b'}' ∷ [])
    → strip is_byte_space (32 ∷ s) ≡ s
unfolding strip drop_while is_byte_space
strip-payload s behind before a b =
    strip-trimmed is_byte_space s behind before b'{' b'}' a refl b refl

split_lines-line : (s : Text) → IsLine s → split_lines s ≡ (s, [])
unfolding split_lines
split_lines-line [] h = refl
split_lines-line (c ∷ s) h = rw (h.0, split_lines-line s h.1) refl

-- A line, and the empty line behind it, are the first event.
pub frames-line :
    (s rest : Text)
    → IsLine s
    → frames (s ++ (codes "\n\n" ++ rest)) ≡ (s ∷ (frames rest).0, (frames rest).1)
unfolding frames
frames-line [] rest h = refl
frames-line (c ∷ []) rest h = rw h.0 refl
frames-line (c ∷ d ∷ s) rest h = rw (h.0, frames-line (d ∷ s) rest h.1) refl

pub data_line-IsLine : (s : Text) → IsLine s → IsLine (data_line s)
data_line-IsLine s h = (refl, (refl, (refl, (refl, (refl, (refl, h))))))

not_done : (s behind : Text) → s ≡ b'{' ∷ behind → text_eq s (codes "[DONE]") ≡ false
unfolding text_eq
not_done s behind h = ap (λ t. text_eq t (codes "[DONE]")) h

module _ {F : Type 0} ⦃f : Float F⦄ (dumps : Json F → Result Text)
    (loads : Text → Option (Json F)) where
  consume_line-data :
      (v : Json F) (e : IsEncoded dumps loads v) (a : Assembled F)
      → consume_line loads (data_line e.written) a ≡ merge v a
  unfolding consume_line starts_with
  consume_line-data v e a =
      rw
        (
          strip-data_line e.written e.behind e.before e.opened e.closed,
          strip-payload e.written e.behind e.before e.opened e.closed,
          not_done e.written e.behind e.opened,
          e.loads_lem,
        )
        refl

  -- An event with one dictionary is merged.
  pub consume_event-data :
      (v : Json F) (e : IsEncoded dumps loads v) (a b : Assembled F)
      → merge v a ≡ (ok tt, b)
      → consume_event loads (data_line e.written) a ≡ (ok tt, b)
  unfolding consume_event consume_lines
  consume_event-data v e a b h =
      ap (λ p. consume_lines loads (p.0 ∷ p.1) a)
        (split_lines-line (data_line e.written) (data_line-IsLine e.written e.IsLine_lem))
      ∙ rw (consume_line-data v e a, h) refl
