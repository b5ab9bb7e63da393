-- ===== src/Prelude/Sort.antt =====
-- Facts on permutations over the native numbers, and Python's stable `sorted`, by insertion.
use Prim.Native.Nat.{ℕ, zero, suc, ◌+◌, ◌<◌}
use mathlib.Core.Path.{◌≡◌, refl, ap, ◌∙◌}
use mathlib.Core.Logic.{inl, inr, ∥∥₁_elim}
use mathlib.Core.Logic.Or
use mathlib.Core.Bool.{Bool, true, false}
use mathlib.Core.List.{
  List, [], ◌∷◌, map, Mem, Perm, Permᴰ, Pairwise, Pairwise-cons, mem-cons, not-mem-nil,
}
use mathlib.Core.List.Perm
use native.Mathlib.Bridge.{le_prop}
use native.Mathlib.Nat.{ℕ_set}
use native.Mathlib.Omega.{arith}
use llm_semantic_caching_lay.Prelude.Tests.{if◌then◌else◌, Bool-cases}
use llm_semantic_caching_lay.Prelude.Lists.{length, get_or, range_from, range}

length_of_Permᴰ {ℓ} : {A : Type ℓ} {xs ys : List A} → Permᴰ xs ys → length xs ≡ length ys
length_of_Permᴰ Permᴰ.nil = refl
length_of_Permᴰ (Permᴰ.cons x p) = ap suc (length_of_Permᴰ p)
length_of_Permᴰ (Permᴰ.swap x y) = refl
length_of_Permᴰ (Permᴰ.trans p q) = length_of_Permᴰ p ∙ length_of_Permᴰ q

pub length_of_perm {ℓ} : {A : Type ℓ} {xs ys : List A} → Perm xs ys → length xs ≡ length ys
length_of_perm p = ∥∥₁_elim p (ℕ_set _ _) length_of_Permᴰ

length-range_from : (i n : ℕ) → length (range_from i n) ≡ n
length-range_from i zero = refl
length-range_from i (suc n) = ap suc (length-range_from (suc i) n)

pub length-range : (n : ℕ) → length (range n) ≡ n
length-range n = length-range_from 0 n

mem-range_from : (i n : ℕ) {j : ℕ} → Mem j (range_from i n) → j < i + n
mem-range_from i zero m = absurd (not-mem-nil m)
mem-range_from i (suc n) m =
    Or.elim le_prop (mem-cons.0 m) (λ e. omega arith)
      (λ later. let h = mem-range_from (suc i) n later in omega arith)

pub mem-range : (n : ℕ) {j : ℕ} → Mem j (range n) → j < n
mem-range n m = omega (arith, mem-range_from 0 n m)

map-range {ℓ} :
    {A : Type ℓ} (d : A) (xs : List A) (pre : ℕ → A) (i : ℕ)
    → ((j : ℕ) → pre (i + j) ≡ get_or xs j d)
    → map pre (range_from i (length xs)) ≡ xs
map-range d [] pre i h = refl
map-range d (x ∷ xs) pre i h =
    let first : pre i ≡ x = ap pre (omega arith) ∙ h 0 in
    cc (first, map-range d xs pre (suc i) (λ j. ap pre (omega arith) ∙ h (suc j)))

-- Reading a list at all its indices gives the list.
pub map-get_or-range {ℓ} :
    {A : Type ℓ} (d : A) (xs : List A) → map (λ i. get_or xs i d) (range (length xs)) ≡ xs
map-get_or-range d xs =
    map-range d xs (λ i. get_or xs i d) 0 (λ j. ap (λ i. get_or xs i d) (omega arith))

module _ {ℓ} {A : Type ℓ} (le : A → A → Bool) where
  -- In front of the first element that is not less.
  unfoldable pub insert : A → List A → List A
  insert x [] = x ∷ []
  insert x (y ∷ ys) = let rest = insert x ys in if le x y then x ∷ y ∷ ys else y ∷ rest

  unfoldable pub sorted : List A → List A
  unfolding insert
  sorted [] = []
  sorted (x ∷ xs) = insert x (sorted xs)

  insert-perm : (x : A) (ys : List A) → Perm (insert x ys) (x ∷ ys)
  unfolding insert
  insert-perm x [] = Perm.refl (x ∷ [])
  insert-perm x (y ∷ ys) = elim (Bool-cases (le x y)) [
    | inl h ↦ rw h (Perm.refl (x ∷ y ∷ ys))
    | inr h ↦ rw h (Perm.trans (Perm.cons y (insert-perm x ys)) (Perm.swap x y ys))
  ]

  pub sorted-perm : (xs : List A) → Perm (sorted xs) xs
  unfolding sorted
  sorted-perm [] = Perm.refl []
  sorted-perm (x ∷ xs) = Perm.trans (insert-perm x (sorted xs)) (Perm.cons x (sorted-perm xs))

  module _ (trans : (x y z : A) → le x y ≡ true → le y z ≡ true → le x z ≡ true)
      (total : (x y : A) → le x y ≡ false → le y x ≡ true) where
    abbrev Sorted : List A → Type ℓ
    Sorted = Pairwise (λ x y. le x y ≡ true)

    insert-Sorted : (x : A) (ys : List A) → Sorted ys → Sorted (insert x ys)
    unfolding insert
    insert-Sorted x [] s = Pairwise-cons.1 (λ a m. absurd (not-mem-nil m), s)
    insert-Sorted x (y ∷ ys) s = elim (Bool-cases (le x y)) [
      | inl h ↦ rw h (
          Pairwise-cons.1 (
            λ a m.
                Or.elim (hlevel) (mem-cons.0 m) (λ e. rw e h)
                  (λ later. trans x y a h ((Pairwise-cons.0 s).0 a later)),
            s,
          ))
      | inr h ↦ rw h (
          Pairwise-cons.1 (
            λ a m.
                Or.elim (hlevel) (mem-cons.0 ((Perm.mem_iff (insert-perm x ys)).0 m))
                  (λ e. rw e (total x y h)) ((Pairwise-cons.0 s).0 a),
            insert-Sorted x ys (Pairwise-cons.0 s).1,
          ))
    ]

    pub sorted-Pairwise : (xs : List A) → Pairwise (λ x y. le x y ≡ true) (sorted xs)
    unfolding sorted
    sorted-Pairwise [] = Pairwise.nil
    sorted-Pairwise (x ∷ xs) = insert-Sorted x (sorted xs) (sorted-Pairwise xs)
