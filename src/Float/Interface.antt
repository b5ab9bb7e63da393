-- ===== src/Float/Interface.antt =====
-- Python's `float`, as far as the program uses it: an abstract type with its comparisons and
-- operations. Its values are the numbers other than NaN. The order is all that theorems assume.
use llm_semantic_caching_lay.Prelude.{
  ℕ, ◌≡◌, Bool, true, false, not, arith, Text, inl, inr, Bool-cases,
}
use llm_semantic_caching_lay.Prelude.Int.{ℤ}

pub record Float (F : Type 0) : Type 0 where
  -- a <= b, a < b, a == b
  pub le : F → F → Bool
  pub lt : F → F → Bool
  pub eq : F → F → Bool
  pub add : F → F → F
  pub sub : F → F → F
  pub mul : F → F → F
  pub div : F → F → F
  pub of_int : ℤ → F
  -- the literal with the decimals of p / q, such as 0.95 = ratio 95 100
  pub ratio : ℕ → ℕ → F
  -- `round(x, n)`, and `f"{x:.nf}"`
  pub round : F → ℕ → F
  pub fixed : ℕ → F → Text

-- The comparisons away from NaN: a total preorder (0.0 and -0.0 are two values that compare equal).
pub record IsOrdered {F : Type 0} (f : Float F) : Type 0 where
  pub le_refl : (x : F) → f.le x x ≡ true
  pub le_trans : (x y z : F) → f.le x y ≡ true → f.le y z ≡ true → f.le x z ≡ true
  pub le_total : (x y : F) → f.le x y ≡ false → f.le y x ≡ true
  pub lt-eq-not-le : (x y : F) → f.lt x y ≡ not (f.le y x)

module _ {F : Type 0} (f : Float F) (o : IsOrdered f) where
  pub le-of_lt : (x y : F) → f.lt x y ≡ true → f.le x y ≡ true
  le-of_lt x y h = elim (Bool-cases (f.le x y)) [
    | inl yes_le ↦ yes_le
    | inr no_le ↦ ground (arith, o.lt-eq-not-le x y, o.le_total x y)
  ]

  pub le-of_not_lt : (x y : F) → f.lt x y ≡ false → f.le y x ≡ true
  le-of_not_lt x y h = ground (arith, o.lt-eq-not-le x y)
