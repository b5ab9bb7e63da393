-- ===== src/Cache/Numpy/Indexing.antt =====
-- Reading lists at indices that are in range raises nothing.
use mathlib.Core.List.{Mem, mem-cons_self, mem-cons_of_mem}
use llm_semantic_caching_lay.Prelude.{
  ℕ, zero, suc, ◌<◌, ◌≡◌, refl, List, [], ◌∷◌, map, length, get_elem?, get_or, some, ok, arith,
}
use llm_semantic_caching_lay.Cache.Numpy.{index, gather}

get_elem?-get_or {ℓ} :
    {A : Type ℓ} (xs : List A) (i : ℕ) (d : A)
    → i < length xs
    → get_elem? xs i ≡ some (get_or xs i d)
get_elem?-get_or [] i d h = elim h [ ]
get_elem?-get_or (x ∷ xs) zero d h = refl
get_elem?-get_or (x ∷ xs) (suc i) d h = get_elem?-get_or xs i d (omega arith)

pub index_in_range {ℓ} :
    {A : Type ℓ} (xs : List A) (d : A) (i : ℕ) → i < length xs → index xs i ≡ ok (get_or xs i d)
unfolding index
index_in_range xs d i h = rw (get_elem?-get_or xs i d h)

pub gather_in_range {ℓ} :
    {A : Type ℓ} (xs : List A) (d : A) (is : List ℕ)
    → ((i : ℕ) → Mem i is → i < length xs)
    → gather xs is ≡ ok (map (λ i. get_or xs i d) is)
unfolding gather
gather_in_range xs d [] h = refl
gather_in_range xs d (i ∷ is) h = rw (
  get_elem?-get_or xs i d (h i mem-cons_self),
  gather_in_range xs d is (λ j m. h j (mem-cons_of_mem i m)),
)
