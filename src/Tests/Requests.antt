-- ===== src/Tests/Requests.antt =====
-- Namespaces of concrete requests.
use llm_semantic_caching_lay.Prelude.{
  ℕ, zero, suc, ◌+◌, ◌%◌, ◌≡◌, ◌≢◌, ◌↔◌, refl, ap, inl, length, some, [], ◌∷◌, Text, codes, All,
  All-map, arith,
}
use llm_semantic_caching_lay.Prelude.Int.{ℤ, pos}
use llm_semantic_caching_lay.Prelude.Decimal.{str_int-le}
use llm_semantic_caching_lay.Float.Decimals.{decimals}
use llm_semantic_caching_lay.Cache.Namespace.{
  RequestSignature, raw, namespace, normalized, system_prompt_hash, temp_bucket,
}
use llm_semantic_caching_lay.Cache.Namespace.Isolation.{
  IsHexDigit, IsHexdigest, SameScope, namespace-eq_iff,
}

-- A stand-in for SHA-256: a checksum of the text in 64 equal digits.
abbrev checksum : Text → ℕ
checksum [] = 0
checksum (c ∷ s) = c + checksum s

abbrev same_digits : ℕ → ℕ → Text
same_digits zero c = []
same_digits (suc n) c = c ∷ same_digits n c

abbrev pub digest : Text → Text
digest t = same_digits 64 (48 + checksum t % 10)

length-same_digits : (n c : ℕ) → length (same_digits n c) ≡ n
length-same_digits zero c = refl
length-same_digits (suc n) c = ap suc (length-same_digits n c)

All-same_digits : (P : ℕ → Type 0) (n c : ℕ) → P c → All P (same_digits n c)
All-same_digits P zero c h = tt
All-same_digits P (suc n) c h = (h, All-same_digits P n c h)

digest-IsHexdigest : IsHexdigest digest
digest-IsHexdigest = record {
  size = λ t. length-same_digits 64 (48 + checksum t % 10);
  digits =
      λ t. All-same_digits IsHexDigit 64 (48 + checksum t % 10) (inl (omega arith, omega arith));
}

-- Two tenants whose names hold the separators, and a model that would make up for it.
abbrev request : RequestSignature ℤ
request = record {
  model = codes "gpt-4o";
  provider = codes "openai";
  system_prompt = some (codes "Be terse.");
  temperature = pos 7000;
  max_tokens = some (pos 64);
  tenant = codes "a|openai|x";
}

abbrev padded : RequestSignature ℤ
padded = record request { system_prompt = some (codes "  Be terse.\n") }

no_bar : (x : ℤ) → All (λ c. c ≢ b'|') (temp_bucket x)
unfolding temp_bucket
no_bar x = All-map (λ c h. omega arith) _ (str_int-le x)

same_prompt : normalized request.system_prompt ≡ normalized padded.system_prompt
unfolding normalized
same_prompt = refl

same_raw : raw digest request ≡ raw digest padded
unfolding raw system_prompt_hash
same_raw = rw same_prompt

namespace-eq_iff_example :
    (namespace digest request ≡ namespace digest padded) ↔ SameScope request padded
namespace-eq_iff_example =
    namespace-eq_iff digest request padded digest-IsHexdigest no_bar (λ e. same_prompt)
      (λ e. same_raw)
