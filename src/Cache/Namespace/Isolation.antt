-- ===== src/Cache/Namespace/Isolation.antt =====
-- Two requests share a namespace exactly when they agree in every dimension that scopes an entry.
use llm_semantic_caching_lay.Prelude.{
  ℕ, zero, suc, ◌≤◌, ◌≡◌, ◌≢◌, ◌↔◌, ◌⊎◌, refl, sym, ap, subst, ◌∙◌, Option, none, some, [], ◌∷◌,
  ◌++◌, Text, codes, take, length, length-take, length-append, All, All-map, arith, truthy,
  if◌then◌else◌, append_assoc,
}
use llm_semantic_caching_lay.Prelude.Int.{ℤ}
use llm_semantic_caching_lay.Prelude.Decimal.{str_int, str_int-injective, str_int-le}
use llm_semantic_caching_lay.Float.{Float}
use llm_semantic_caching_lay.Cache.Namespace.{
  RequestSignature, normalized, system_prompt_hash, max_tokens_part, temp_bucket, raw, namespace,
}

abbrev pub IsHexDigit : ℕ → Type 0
IsHexDigit c = ((48 ≤ c) × (c ≤ 57)) ⊎ ((97 ≤ c) × (c ≤ 102))

-- `sha256(...).hexdigest()` is 64 lower-case hexadecimal digits.
pub record IsHexdigest (hexdigest : Text → Text) : Type 0 where
  pub size : (t : Text) → length (hexdigest t) ≡ 64
  pub digits : (t : Text) → All IsHexDigit (hexdigest t)

abbrev pub Lacks : ℕ → Text → Type 0
Lacks c = All (λ x. x ≢ c)

-- The dimensions that the namespace is meant to keep apart.
pub record SameScope {F : Type 0} ⦃f : Float F⦄ (s t : RequestSignature F) : Type 0 where
  pub tenant : s.tenant ≡ t.tenant
  pub provider : s.provider ≡ t.provider
  pub model : s.model ≡ t.model
  pub prompt : normalized s.system_prompt ≡ normalized t.system_prompt
  pub temperature : temp_bucket s.temperature ≡ temp_bucket t.temperature
  pub max_tokens : s.max_tokens ≡ t.max_tokens

append-cancel_of_length :
    (a b x y : Text) → a ++ x ≡ b ++ y → length x ≡ length y → (a ≡ b) × (x ≡ y)
append-cancel_of_length [] [] x y e h = (refl, e)
append-cancel_of_length [] (c ∷ b) x y e h = absurd (omega (arith, ap length e, length-append b y))
append-cancel_of_length (c ∷ a) [] x y e h = absurd (omega (arith, ap length e, length-append a x))
append-cancel_of_length (c ∷ a) (d ∷ b) x y e h =
    let (p, q) = append-cancel_of_length a b x y (cc) h in (cc, q)

-- A part followed by either of two separators is determined, whatever characters it holds.
append-cancel_of_separators :
    (c d : ℕ) (a b : Text) (x y x' y' : Text)
    → c ≢ d
    → a ++ c ∷ x ≡ b ++ c ∷ y
    → a ++ d ∷ x' ≡ b ++ d ∷ y'
    → (a ≡ b) × (x ≡ y) × (x' ≡ y')
append-cancel_of_separators c d [] [] x y x' y' n e e' = (refl, cc, cc)
append-cancel_of_separators c d [] (k ∷ b) x y x' y' n e e' = absurd (n (cc))
append-cancel_of_separators c d (k ∷ a) [] x y x' y' n e e' = absurd (n (cc))
append-cancel_of_separators c d (k ∷ a) (l ∷ b) x y x' y' n e e' =
    let (p, q, r) = append-cancel_of_separators c d a b x y x' y' n (cc) (cc) in (cc, q, r)

append-cancel_of_Lacks :
    (c : ℕ) (a b x y : Text) → Lacks c a → Lacks c b → a ++ c ∷ x ≡ b ++ c ∷ y → (a ≡ b) × (x ≡ y)
append-cancel_of_Lacks c [] [] x y h k e = (refl, cc)
append-cancel_of_Lacks c [] (l ∷ b) x y h k e = absurd (k.0 (cc))
append-cancel_of_Lacks c (l ∷ a) [] x y h k e = absurd (h.0 (cc))
append-cancel_of_Lacks c (l ∷ a) (m ∷ b) x y h k e =
    let (p, q) = append-cancel_of_Lacks c a b x y h.1 k.1 (cc) in (cc, q)

not_default : (j : ℤ) → str_int j ≢ codes "default"
not_default j e =
    let h : All (λ c. c ≤ 57) (codes "default") = subst (All (λ c. c ≤ 57)) e (str_int-le j) in
    omega arith

max_tokens_part-injective : (i j : Option ℤ) → max_tokens_part i ≡ max_tokens_part j → i ≡ j
unfolding max_tokens_part
max_tokens_part-injective none none e = refl
max_tokens_part-injective none (some j) e = absurd (not_default j (sym e))
max_tokens_part-injective (some i) none e = absurd (not_default i e)
max_tokens_part-injective (some i) (some j) e = ap some (str_int-injective i j e)

All-take : (P : ℕ → Type 0) (n : ℕ) (t : Text) → All P t → All P (take n t)
All-take P zero t h = tt
All-take P (suc n) [] h = tt
All-take P (suc n) (c ∷ t) h = (h.0, All-take P n t h.1)

module _ (hexdigest : Text → Text) where
  abbrev hash_text : Text → Text
  hash_text t = if truthy t then take 16 (hexdigest t) else codes "no-system"

  hash_text-injective :
      (s t : Text)
      → IsHexdigest hexdigest
      → (take 16 (hexdigest s) ≡ take 16 (hexdigest t) → s ≡ t)
      → hash_text s ≡ hash_text t
      → s ≡ t
  hash_text-injective [] [] h free e = refl
  hash_text-injective [] (d ∷ t) h free e =
      absurd (omega (arith, ap length e, length-take 16 (hexdigest (d ∷ t)), h.size (d ∷ t)))
  hash_text-injective (c ∷ s) [] h free e =
      absurd (omega (arith, ap length e, length-take 16 (hexdigest (c ∷ s)), h.size (c ∷ s)))
  hash_text-injective (c ∷ s) (d ∷ t) h free e = free e

  hash_text-Lacks : (t : Text) → IsHexdigest hexdigest → Lacks b'|' (hash_text t)
  hash_text-Lacks [] h = omega arith
  hash_text-Lacks (c ∷ t) h =
      All-map (λ x d. ground arith) (take 16 (hexdigest (c ∷ t)))
        (All-take IsHexDigit 16 _ (h.digits (c ∷ t)))

module _ {F : Type 0} ⦃f : Float F⦄ (hexdigest : Text → Text) (s t : RequestSignature F) where
  -- Both texts agree, so each part in turn is the same.
  parts_agree :
      (h : IsHexdigest hexdigest)
      → ((x : F) → Lacks b'|' (temp_bucket x))
      → (take 16 (hexdigest (normalized s.system_prompt))
            ≡ take 16 (hexdigest (normalized t.system_prompt))
          → normalized s.system_prompt ≡ normalized t.system_prompt)
      → raw hexdigest s ≡ raw hexdigest t
      → namespace hexdigest s ≡ namespace hexdigest t
      → SameScope s t
  unfolding raw namespace system_prompt_hash
  parts_agree h plain free e e' =
      let (tenant, r1, r1') =
        append-cancel_of_separators b'|' b':' s.tenant t.tenant _ _ _ _ (omega arith) e e' in
      let (provider, r2, r2') =
        append-cancel_of_separators b'|' b':' s.provider t.provider _ _ _ _ (omega arith) r1 r1' in
      let (model, r3, r3') =
        append-cancel_of_separators b'|' b':' s.model t.model _ _ _ _ (omega arith) r2 r2' in
      let (hash, r4) =
        append-cancel_of_Lacks b'|' (hash_text hexdigest (normalized s.system_prompt))
          (hash_text hexdigest (normalized t.system_prompt)) _ _ (hash_text-Lacks hexdigest _ h)
          (hash_text-Lacks hexdigest _ h) r3 in
      let (bucket, r5) =
        append-cancel_of_Lacks b'|' (temp_bucket s.temperature) (temp_bucket t.temperature) _ _
          (plain s.temperature) (plain t.temperature) r4 in
      record {
        tenant = tenant;
        provider = provider;
        model = model;
        prompt = hash_text-injective hexdigest _ _ h free hash;
        temperature = bucket;
        max_tokens = max_tokens_part-injective s.max_tokens t.max_tokens r5;
      }

  before : RequestSignature F → Text
  before q = q.tenant ++ (codes ":" ++ (q.provider ++ (codes ":" ++ (q.model ++ codes ":"))))

  before-append :
      (q : RequestSignature F)
      → before q ++ take 20 (hexdigest (raw hexdigest q)) ≡ namespace hexdigest q
  unfolding before namespace
  before-append q = simp append_assoc

  digests_agree :
      IsHexdigest hexdigest
      → namespace hexdigest s ≡ namespace hexdigest t
      → take 20 (hexdigest (raw hexdigest s)) ≡ take 20 (hexdigest (raw hexdigest t))
  digests_agree h e =
      (append-cancel_of_length (before s) (before t) _ _
        (before-append s ∙ (e ∙ sym (before-append t)))
        (omega (
          arith,
          length-take 20 (hexdigest (raw hexdigest s)),
          length-take 20 (hexdigest (raw hexdigest t)),
          h.size (raw hexdigest s),
          h.size (raw hexdigest t),
        ))).1

  SameScope-namespace : SameScope s t → namespace hexdigest s ≡ namespace hexdigest t
  unfolding namespace raw system_prompt_hash
  SameScope-namespace h = cc (h.tenant, h.provider, h.model, h.prompt, h.temperature, h.max_tokens)

  -- Where SHA-256 does not collide on the two digested texts and on the two system prompts, gives
  -- 64 hexadecimal digits, and a formatted temperature holds no bar, two requests have one namespace
  -- exactly when they agree in tenant, provider, model, trimmed system prompt, temperature to one
  -- decimal and `max_tokens`: also when a tenant or a model name holds the separators `|` and `:`.
  pub namespace-eq_iff :
      IsHexdigest hexdigest
      → ((x : F) → Lacks b'|' (temp_bucket x))
      → (take 16 (hexdigest (normalized s.system_prompt))
            ≡ take 16 (hexdigest (normalized t.system_prompt))
          → normalized s.system_prompt ≡ normalized t.system_prompt)
      → (take 20 (hexdigest (raw hexdigest s)) ≡ take 20 (hexdigest (raw hexdigest t))
          → raw hexdigest s ≡ raw hexdigest t)
      → (namespace hexdigest s ≡ namespace hexdigest t) ↔ SameScope s t
  namespace-eq_iff h plain free16 free20 =
      (λ e. parts_agree h plain free16 (free20 (digests_agree h e)) e, SameScope-namespace)
