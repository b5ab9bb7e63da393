-- ===== src/Models/Json/Order.antt =====
-- Python's `==` and `<` on the values of JSON, and `sorted` with such keys.
use llm_semantic_caching_lay.Prelude.{
  Bool, true, false, ◌&&◌, Option, none, some, List, [], ◌∷◌, length, ◌==◌, ltb, Text, text_eq,
  Result, ok, raise, type_error, and_then, if◌then◌else◌,
}
use llm_semantic_caching_lay.Prelude.Int.{ℤ, pos, ltb_ℤ, leb_ℤ}
use llm_semantic_caching_lay.Float.{Float}
use llm_semantic_caching_lay.Models.Json.{
  Json, null, boolean, int, float, str, arr, obj, Items, nil, cons, Fields, empty, field, get, keys,
}

-- The whole number that a number or a truth value is.
abbrev pub whole : {F : Type 0} → Json F → Option ℤ
whole (int z) = some z
whole (boolean true) = some (pos 1)
whole (boolean false) = some (pos 0)
whole _ = none

unfoldable pub text_less : Text → Text → Bool
text_less [] [] = false
text_less [] (d ∷ t) = true
text_less (c ∷ s) [] = false
text_less (c ∷ s) (d ∷ t) = let rest = text_less s t in if c == d then rest else ltb c d

module _ {F : Type 0} ⦃f : Float F⦄ where
  abbrev number : Json F → Option F
  number (float x) = some x
  number v = elim (whole v) [ some z ↦ some (f.of_int z) | none ↦ none ]

  -- Whole numbers are compared as such, and with a float as floats.
  abbrev compare_numbers : {A : Type 0} → (ℤ → ℤ → A) → (F → F → A) → A → Json F → Json F → A
  compare_numbers on_whole on_floats otherwise v w = elim (whole v) [
    | some i ↦ elim (whole w) [
      | some j ↦ on_whole i j
      | none ↦ elim (number w) [ some y ↦ on_floats (f.of_int i) y | none ↦ otherwise ]
    ]
    | none ↦ elim (number v) [
      | some x ↦ elim (number w) [ some y ↦ on_floats x y | none ↦ otherwise ]
      | none ↦ otherwise
    ]
  ]

  unfoldable mutual
    -- Dicts are equal whatever their order.
    pub equal : Json F → Json F → Bool
    equal null null = true
    equal (str s) (str t) = text_eq s t
    equal (arr vs) (arr ws) = equal_items vs ws
    equal (obj d) (obj e) = length (keys d) == length (keys e) && equal_fields d e
    equal v w = compare_numbers (λ i j. leb_ℤ i j && leb_ℤ j i) (λ x y. f.eq x y) false v w

    pub equal_items : Items F → Items F → Bool
    equal_items nil nil = true
    equal_items (cons v vs) (cons w ws) = equal v w && equal_items vs ws
    equal_items _ _ = false

    pub equal_fields : Fields F → Fields F → Bool
    equal_fields empty e = true
    equal_fields (field k v d) e =
        let here : Bool = elim (get e k) [ some w ↦ equal v w | none ↦ false ] in
        here && equal_fields d e

  unfoldable mutual
    -- Lists are compared at the first place where they differ.
    pub less : Json F → Json F → Result Bool
    less (str s) (str t) = ok (text_less s t)
    less (arr vs) (arr ws) = less_items vs ws
    less v w = compare_numbers (λ i j. ok (ltb_ℤ i j)) (λ x y. ok (f.lt x y)) (raise type_error) v w

    pub less_items : Items F → Items F → Result Bool
    less_items nil nil = ok false
    less_items nil (cons w ws) = ok true
    less_items (cons v vs) nil = ok false
    less_items (cons v vs) (cons w ws) =
        let rest = less_items vs ws in let here = less v w in if equal v w then rest else here

  -- `sorted`, of values with their keys: `x` goes in front of the first one whose key is not less.
  unfoldable pub insert_by :
      {A : Type 0} → Json F × A → List (Json F × A) → Result (List (Json F × A))
  insert_by x [] = ok (x ∷ [])
  insert_by x (y ∷ ys) =
      let rest = insert_by x ys in
      and_then (less y.0 x.0)
        (λ before. if before then and_then rest (λ zs. ok (y ∷ zs)) else ok (x ∷ y ∷ ys))

  unfoldable pub sorted_by : {A : Type 0} → List (Json F × A) → Result (List (Json F × A))
  unfolding insert_by
  sorted_by [] = ok []
  sorted_by (x ∷ xs) = let rest = sorted_by xs in and_then rest (λ ys. insert_by x ys)
