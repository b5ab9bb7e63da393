-- ===== src/Cache/RedisStore/Escaping.antt =====
-- The escaping of tags, and what it undoes.
use mathlib.Core.List.{flat_map}
use llm_semantic_caching_lay.Prelude.{
  ℕ, ◌≡◌, ◌≢◌, refl, sym, ap, ◌∙◌, Bool, true, false, inl, inr, Bool-cases, List, [], ◌∷◌, ◌==◌,
  All, arith, Text, any, if◌then◌else◌, ==_iff,
}
use llm_semantic_caching_lay.Cache.RedisStore.{replace, replace_all, special, escape_tag}

abbrev among : List ℕ → ℕ → Bool
among chs c = any (λ ch. c == ch) chs

-- A special character behind a backslash, and any other as it is.
unfoldable pub mark : List ℕ → ℕ → Text
mark chs c = if among chs c then b'\\' ∷ c ∷ [] else c ∷ []

-- Characters that are replaced one after the other without meeting: no backslash, and none twice.
abbrev Separate : List ℕ → Type 0
Separate [] = Unit
Separate (ch ∷ chs) = (ch ≢ b'\\') × (among chs ch ≡ false) × Separate chs

marked : (chs : List ℕ) (c : ℕ) → among chs c ≡ true → mark chs c ≡ b'\\' ∷ c ∷ []
unfolding mark
marked chs c h = rw h refl

unmarked : (chs : List ℕ) (c : ℕ) → among chs c ≡ false → mark chs c ≡ c ∷ []
unfolding mark
unmarked chs c h = rw h refl

mark_head : (ch : ℕ) (chs : List ℕ) (c : ℕ) → (c == ch) ≡ true → mark (ch ∷ chs) c ≡ b'\\' ∷ ch ∷ []
unfolding any
mark_head ch chs c h =
    marked (ch ∷ chs) c (ground (arith, h)) ∙ ap (λ x. b'\\' ∷ x ∷ []) ((==_iff c ch).0 h)

mark_tail : (ch : ℕ) (chs : List ℕ) (c : ℕ) → (c == ch) ≡ false → mark (ch ∷ chs) c ≡ mark chs c
unfolding any mark
mark_tail ch chs c h = rw h refl

mark-replace :
    (ch : ℕ) (chs : List ℕ) (s : Text)
    → among chs ch ≡ false
    → among chs b'\\' ≡ false
    → flat_map (mark chs) (replace ch s) ≡ flat_map (mark (ch ∷ chs)) s
unfolding replace flat_map
mark-replace ch chs [] h k = refl
mark-replace ch chs (c ∷ s) h k =
    let rest = mark-replace ch chs s h k in
    elim (Bool-cases (c == ch)) [
      | inl same ↦
          rw (same, unmarked chs b'\\' k, unmarked chs ch h, rest, mark_head ch chs c same) refl
      | inr other ↦ rw (other, rest, mark_tail ch chs c other) refl
    ]

among_apart : (chs : List ℕ) → Separate chs → among chs b'\\' ≡ false
unfolding any
among_apart [] h = refl
among_apart (ch ∷ chs) h = ground (arith, h.0, among_apart chs h.2, ==_iff b'\\' ch)

mark_none : (s : Text) → flat_map (mark []) s ≡ s
unfolding flat_map mark any
mark_none [] = refl
mark_none (c ∷ s) = ap (◌∷◌ c) (mark_none s)

-- The replacements one after the other are one pass.
replace_all-mark :
    (chs : List ℕ) (s : Text) → Separate chs → replace_all chs s ≡ flat_map (mark chs) s
unfolding replace_all
replace_all-mark [] s h = sym (mark_none s)
replace_all-mark (ch ∷ chs) s h =
    replace_all-mark chs (replace ch s) h.2 ∙ mark-replace ch chs s h.1 (among_apart chs h.2)

-- A backslash gives way to the character behind it.
unfoldable pub unescape : Text → Text
unescape [] = []
unescape (c ∷ []) = c ∷ []
unescape (c ∷ d ∷ s) =
    let kept = unescape (d ∷ s) in
    let taken = unescape s in if c == b'\\' then d ∷ taken else c ∷ kept

unescape_plain : (c : ℕ) (s : Text) → c ≢ b'\\' → unescape (c ∷ s) ≡ c ∷ unescape s
unfolding unescape
unescape_plain c [] h = refl
unescape_plain c (d ∷ s) h = ground (arith, h)

unescape-mark :
    (chs : List ℕ) (s : Text) → All (λ c. c ≢ b'\\') s → unescape (flat_map (mark chs) s) ≡ s
unfolding unescape flat_map
unescape-mark chs [] h = refl
unescape-mark chs (c ∷ s) h =
    let rest = unescape-mark chs s h.1 in
    elim (Bool-cases (among chs c)) [
      | inl special ↦ rw (marked chs c special, rest) refl
      | inr plain ↦
          rw (unmarked chs c plain, unescape_plain c (flat_map (mark chs) s) h.0, rest) refl
    ]

special-Separate : Separate special
unfolding any
special-Separate = (
  omega arith,
  refl,
  (
    omega arith,
    refl,
    (
      omega arith,
      refl,
      (
        omega arith,
        refl,
        (omega arith, refl, (omega arith, refl, (omega arith, refl, (omega arith, refl, tt)))),
      ),
    ),
  ),
)

-- Of a value without backslashes, `_escape_tag` makes one pass, which puts a backslash before each
-- of the characters that it lists and leaves every other as it is; and dropping the backslashes
-- gives back the value.
pub unescape-escape_tag :
    (value : Text)
    → All (λ c. c ≢ b'\\') value
    → (escape_tag value ≡ flat_map (mark special) value) × (unescape (escape_tag value) ≡ value)
unfolding escape_tag
unescape-escape_tag value h =
    let one_pass = replace_all-mark special value special-Separate in
    (one_pass, ap unescape one_pass ∙ unescape-mark special value h)
