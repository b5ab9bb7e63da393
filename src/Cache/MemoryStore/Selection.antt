-- ===== src/Cache/MemoryStore/Selection.antt =====
-- What the filters of a deletion select, apart from the code's tests.
use mathlib.Core.Logic.Or
use mathlib.Core.List.{Mem, mem-cons, mem-cons_self, mem-cons_of_mem, not-mem-nil}
use llm_semantic_caching_lay.Prelude.{
  ◌≡◌, ◌↔◌, refl, subst, inl, inr, Bool-cases, Option, none, some, true, List, [], ◌∷◌, any, Text,
  text_eq, text_eq_iff, arith,
}
use llm_semantic_caching_lay.Models.Entry.{CacheEntry}
use llm_semantic_caching_lay.Cache.MemoryStore.{is_or_absent, has_or_absent, matches}

mem_of_any : (tag : Text) (tags : List Text) → any (text_eq tag) tags ≡ true → Mem tag tags
unfolding any
mem_of_any tag [] h = cc
mem_of_any tag (t ∷ tags) h = elim (Bool-cases (text_eq tag t)) [
  | inl e ↦ subst (λ x. Mem tag (x ∷ tags)) ((text_eq_iff tag t).0 e) mem-cons_self
  | inr e ↦ mem-cons_of_mem t (mem_of_any tag tags (ground arith))
]

any_of_mem : (tag : Text) (tags : List Text) → Mem tag tags → any (text_eq tag) tags ≡ true
unfolding any
any_of_mem tag [] m = absurd (not-mem-nil m)
any_of_mem tag (t ∷ tags) m =
    Or.elim (hlevel) (mem-cons.0 m) (λ e. ground (arith, text_eq_iff tag t))
      (λ later. ground (arith, any_of_mem tag tags later))

-- The values that an optional filter asks for.
abbrev pub Wanted : Option Text → Text → Type 0
Wanted none t = Unit
Wanted (some wanted) t = t ≡ wanted

abbrev pub Tagged : Option Text → List Text → Type 0
Tagged none tags = Unit
Tagged (some tag) tags = Mem tag tags

-- At least one filter is given.
abbrev pub HasFilter : Option Text → Option Text → Option Text → Type 0
HasFilter (some m) hash tag = Unit
HasFilter none (some h) tag = Unit
HasFilter none none (some t) = Unit
HasFilter none none none = ⊥

is_or_absent_iff : (o : Option Text) (t : Text) → (is_or_absent o t ≡ true) ↔ Wanted o t
is_or_absent_iff none t = (λ h. tt, λ h. refl)
is_or_absent_iff (some w) t = text_eq_iff t w

has_or_absent_iff :
    (o : Option Text) (tags : List Text) → (has_or_absent o tags ≡ true) ↔ Tagged o tags
has_or_absent_iff none tags = (λ h. tt, λ h. refl)
has_or_absent_iff (some t) tags = (mem_of_any t tags, any_of_mem t tags)

module _ {F : Type 0} where
  -- A filter is given, and the entry meets every one that is.
  pub record IsSelected (model hash tag : Option Text) (e : CacheEntry F) : Type 0 where
    pub asked : HasFilter model hash tag
    pub of_model : Wanted model e.model
    pub of_hash : Wanted hash e.system_prompt_hash
    pub of_tag : Tagged tag e.tags

  pub matches→IsSelected :
      (m h t : Option Text) (e : CacheEntry F)
      → HasFilter m h t
      → matches m h t e ≡ true
      → IsSelected m h t e
  unfolding matches
  matches→IsSelected m h t e asked b = record {
    asked = asked;
    of_model = (is_or_absent_iff m e.model).0 (ground arith);
    of_hash = (is_or_absent_iff h e.system_prompt_hash).0 (ground arith);
    of_tag = (has_or_absent_iff t e.tags).0 (ground arith);
  }

  pub IsSelected→matches :
      (m h t : Option Text) (e : CacheEntry F) → IsSelected m h t e → matches m h t e ≡ true
  unfolding matches
  IsSelected→matches m h t e q = ground (
    arith,
    (is_or_absent_iff m e.model).1 q.of_model,
    (is_or_absent_iff h e.system_prompt_hash).1 q.of_hash,
    (has_or_absent_iff t e.tags).1 q.of_tag,
  )
