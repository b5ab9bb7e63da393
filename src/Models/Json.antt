-- ===== src/Models/Json.antt =====
-- The values that `orjson.loads` returns, and how the program reads them.
pub mod Order
use llm_semantic_caching_lay.Prelude.{
  Bool, true, false, not, Option, none, some, List, [], ◌∷◌, ◌==◌, Text, text_eq, truthy,
  if◌then◌else◌, Result, ok, raise, type_error, attribute_error,
}
use llm_semantic_caching_lay.Prelude.Int.{ℤ, pos, negsuc}
use llm_semantic_caching_lay.Float.{Float}

mutual
  pub data Json (F : Type 0) : Type 0 where
    null : Json F
    boolean : Bool → Json F
    int : ℤ → Json F
    float : F → Json F
    str : Text → Json F
    arr : Items F → Json F
    obj : Fields F → Json F

  pub data Items (F : Type 0) : Type 0 where
    nil : Items F
    cons : Json F → Items F → Items F

  pub data Fields (F : Type 0) : Type 0 where
    empty : Fields F
    field : Text → Json F → Fields F → Fields F

module _ {F : Type 0} where
  -- `d.get(k)` of a dict; the keys of a dict are distinct.
  unfoldable pub get : Fields F → Text → Option (Json F)
  get empty k = none
  get (field j v d) k = if text_eq j k then some v else get d k

  -- `x.get(k)`, where only a dict has the method.
  unfoldable pub get_of : Json F → Text → Result (Option (Json F))
  unfolding get
  get_of (obj d) k = ok (get d k)
  get_of _ k = raise attribute_error

  unfoldable pub or_default : Option (Json F) → Json F → Json F
  or_default none d = d
  or_default (some v) d = v

  unfoldable pub elements : Items F → List (Json F)
  elements nil = []
  elements (cons v vs) = v ∷ elements vs

  unfoldable pub keys : Fields F → List (Json F)
  keys empty = []
  keys (field k v d) = str k ∷ keys d

  unfoldable pub characters : Text → List (Json F)
  characters [] = []
  characters (c ∷ s) = str (c ∷ []) ∷ characters s

  -- `for x in v`: a list's elements, a dict's keys, a text's characters.
  unfoldable pub iterate : Json F → Result (List (Json F))
  unfolding elements keys characters
  iterate (arr vs) = ok (elements vs)
  iterate (obj d) = ok (keys d)
  iterate (str s) = ok (characters s)
  iterate _ = raise type_error

-- A value in a test.
unfoldable pub is_true : {F : Type 0} ⦃f : Float F⦄ → Json F → Bool
is_true null = false
is_true (boolean b) = b
is_true (int (pos n)) = not (n == 0)
is_true (int (negsuc n)) = true
is_true ⦃f⦄ (float x) = not (f.eq x (f.ratio 0 1))
is_true (str s) = truthy s
is_true (arr nil) = false
is_true (arr (cons v vs)) = true
is_true (obj empty) = false
is_true (obj (field k v d)) = true
