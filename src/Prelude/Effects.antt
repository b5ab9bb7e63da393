-- ===== src/Prelude/Effects.antt =====
-- Calls that may raise, and methods that mutate an object and may raise. What was written before a
-- raise stays written, so the state comes back beside the error too.
use Prim.Native.Nat.{ℕ}
use mathlib.Core.Path.{◌≡◌, refl}
use mathlib.Core.Logic.{◌⊎◌, inl, inr}
use mathlib.Core.Option.{Option, none, some}
use llm_semantic_caching_lay.Prelude.Strings.{Text}

-- `ProviderError`, the exceptions of Python's own operations that the modelled code can meet, and
-- any other exception that a called library raises.
pub data Error : Type 0 where
  provider_error : Text → ℕ → Text → Error
  index_error key_error type_error attribute_error : Error
  failure : Text → Error

pub data Result {ℓ} (A : Type ℓ) : Type ℓ where
  ok : A → Result A
  raise : Error → Result A

module _ {ℓ} {A : Type ℓ} where
  abbrev pub or_raise : Option A → Error → Result A
  or_raise none e = raise e
  or_raise (some a) e = ok a

abbrev pub Exec {ℓ} : Type ℓ → Type ℓ → Type ℓ
Exec S A = S → Result A × S

module _ {ℓ} {S A : Type ℓ} where
  abbrev pub pure : A → Exec S A
  pure a s = (ok a, s)

  abbrev pub lift : Result A → Exec S A
  lift r s = (r, s)

abbrev pub continue {ℓ} : {S A B : Type ℓ} → Result A × S → (A → Exec S B) → Result B × S
continue (ok a, s) f = f a s
continue (raise e, s) f = (raise e, s)

infixl 5 ◌>>=◌ ◌>>◌
abbrev pub ◌>>=◌ {ℓ} : {S A B : Type ℓ} → Exec S A → (A → Exec S B) → Exec S B
◌>>=◌ m f s = continue (m s) f

abbrev pub ◌>>◌ {ℓ} : {S A B : Type ℓ} → Exec S A → Exec S B → Exec S B
m >> k = m >>= λ _. k

-- A chain of calls with no state.
abbrev pub and_then {ℓ κ} : {A : Type ℓ} {B : Type κ} → Result A → (A → Result B) → Result B
and_then (ok a) f = f a
and_then (raise e) f = raise e

pub outcome_cases :
    {A S : Type 0} (t : Result A × S)
    → ((a : A) × (s : S) × (t ≡ (ok a, s))) ⊎ ((e : Error) × (s : S) × (t ≡ (raise e, s)))
outcome_cases (ok a, s) = inl (a, s, refl)
outcome_cases (raise e, s) = inr (e, s, refl)

pub result_cases :
    {A : Type 0} (r : Result A) → ((a : A) × (r ≡ ok a)) ⊎ ((e : Error) × (r ≡ raise e))
result_cases (ok a) = inl (a, refl)
result_cases (raise e) = inr (e, refl)
