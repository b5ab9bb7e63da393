-- ===== src/Float/Decimals.antt =====
-- A concrete `Float`: whole ten-thousandths. It shows that the laws can be met, and runs in tests.
use llm_semantic_caching_lay.Prelude.{◌+◌, ◌*◌, ◌/◌, arith, ◌==◌, ◌&&◌, if◌then◌else◌}
use llm_semantic_caching_lay.Prelude.Int.{
  ℤ, pos, pos_part, neg_part, sub_ℕ, leb_ℤ, ltb_ℤ, ◌+ℤ◌, ◌-ℤ◌, ◌*ℤ◌,
}
use llm_semantic_caching_lay.Prelude.Decimal.{str_int}
use llm_semantic_caching_lay.Float.Interface.{Float, IsOrdered}

-- Division of the absolute values, with the sign of the quotient.
abbrev quotient : ℤ → ℤ → ℤ
quotient a b =
    let p = pos_part a * pos_part b in
    let n = neg_part a * neg_part b in
    let q = (pos_part a + neg_part a) / (pos_part b + neg_part b) in
    if p + n == 0 then sub_ℕ 0 q else pos q

abbrev scale : ℤ → ℤ
scale a = a *ℤ pos 10000

instance abbrev pub decimals : Float ℤ
decimals = record {
  le = leb_ℤ;
  lt = ltb_ℤ;
  eq = λ a b. leb_ℤ a b && leb_ℤ b a;
  add = ◌+ℤ◌;
  sub = ◌-ℤ◌;
  mul = λ a b. quotient (a *ℤ b) (pos 10000);
  div = λ a b. quotient (scale a) b;
  of_int = scale;
  ratio = λ p q. pos (10000 * p / q);
  round = λ a n. a;
  fixed = λ n a. str_int a;
}

pub decimals-IsOrdered : IsOrdered decimals
decimals-IsOrdered = record {
  le_refl = λ x. ground arith;
  le_trans = λ x y z h k. ground arith;
  le_total = λ x y h. ground arith;
  lt-eq-not-le = λ x y. ground arith;
}
