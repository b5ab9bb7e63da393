-- ===== src/Prelude/Decimal.antt =====
-- `str(i)` of an integer, and that it can be read back.
use Prim.Native.Nat.{ℕ, zero, suc, ◌+◌, ◌-◌, ◌*◌, ◌/◌, ◌%◌, ◌≤◌, ◌<◌}
use mathlib.Core.Path.{◌≡◌, refl, ap, ◌∙◌, sym}
use mathlib.Core.Logic.{◌≢◌, inl, inr}
use mathlib.Core.List.{[], ◌∷◌, ◌++◌}
use native.Mathlib.Omega.{arith}
use llm_semantic_caching_lay.Prelude.Tests.{ltb, Bool-cases, if◌then◌else◌}
use llm_semantic_caching_lay.Prelude.Lists.{All, All-append, All-map}
use llm_semantic_caching_lay.Prelude.Strings.{Text}
use llm_semantic_caching_lay.Prelude.Int.{ℤ, pos, negsuc}

-- The fuel is more than the number, so it is more than its digits.
show_from : ℕ → ℕ → Text
show_from zero n = []
show_from (suc f) n =
    let rest = show_from f (n / 10) in
    if ltb n 10 then (48 + n) ∷ [] else rest ++ (48 + n % 10) ∷ []

unfoldable pub show : ℕ → Text
unfolding show_from
show n = show_from (suc n) n

-- `str(i)`.
unfoldable pub str_int : ℤ → Text
unfolding show
str_int (pos n) = show n
str_int (negsuc n) = b'-' ∷ show (suc n)

value : ℕ → Text → ℕ
value acc [] = acc
value acc (c ∷ s) = value (acc * 10 + (c - 48)) s

value-append : (acc : ℕ) (s t : Text) → value acc (s ++ t) ≡ value (value acc s) t
unfolding value
value-append acc [] t = refl
value-append acc (c ∷ s) t = value-append (acc * 10 + (c - 48)) s t

value-show_from : (f n : ℕ) → n < f → value 0 (show_from f n) ≡ n
unfolding show_from
value-show_from zero n h = elim h [ ]
value-show_from (suc f) n h = elim (Bool-cases (ltb n 10)) [
  | inl small ↦ rw small (unfold value in omega arith)
  | inr big ↦
      rw (big, value-append 0 (show_from f (n / 10)) _, value-show_from f (n / 10) (ground arith))
        (unfold value in omega arith)
]

show-injective : (m n : ℕ) → show m ≡ show n → m ≡ n
unfolding show
show-injective m n e =
    sym (value-show_from (suc m) m (omega arith))
    ∙ (ap (value 0) e ∙ value-show_from (suc n) n (omega arith))

abbrev IsDigit : ℕ → Type 0
IsDigit c = (48 ≤ c) × (c ≤ 57)

show_from-IsDigit : (f n : ℕ) → All IsDigit (show_from f n)
unfolding show_from
show_from-IsDigit zero n = tt
show_from-IsDigit (suc f) n = elim (Bool-cases (ltb n 10)) [
  | inl small ↦ rw small ((ground arith, ground arith), tt)
  | inr big ↦
      rw big
        (All-append IsDigit (show_from f (n / 10)) _ (show_from-IsDigit f (n / 10)) (omega arith))
]

show-IsDigit : (n : ℕ) → All IsDigit (show n)
unfolding show
show-IsDigit n = show_from-IsDigit (suc n) n

signed : (s : Text) (t : Text) → All IsDigit s → s ≢ b'-' ∷ t
signed [] t h e = cc
signed (c ∷ s) t h e = absurd (ground arith)

pub str_int-injective : (i j : ℤ) → str_int i ≡ str_int j → i ≡ j
unfolding str_int
str_int-injective (pos m) (pos n) e = ap pos (show-injective m n e)
str_int-injective (pos m) (negsuc n) e = absurd (signed (show m) _ (show-IsDigit m) e)
str_int-injective (negsuc m) (pos n) e = absurd (signed (show n) _ (show-IsDigit n) (sym e))
str_int-injective (negsuc m) (negsuc n) e =
    let same : suc m ≡ suc n = show-injective (suc m) (suc n) (cc) in ap negsuc (omega arith)

-- A numeral's characters are digits and the sign.
pub str_int-le : (i : ℤ) → All (λ c. c ≤ 57) (str_int i)
unfolding str_int
str_int-le (pos n) = All-map (λ c h. h.1) (show n) (show-IsDigit n)
str_int-le (negsuc n) = (omega arith, All-map (λ c h. h.1) (show (suc n)) (show-IsDigit (suc n)))
