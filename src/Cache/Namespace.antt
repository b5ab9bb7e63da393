-- ===== src/Cache/Namespace.antt =====
-- app/cache/namespace.py. `hexdigest` stands for SHA-256 over the UTF-8 bytes of a text.
pub mod Isolation
use llm_semantic_caching_lay.Prelude.{
  ℕ, ◌≡◌, Bool, Option, none, some, List, [], ◌∷◌, ◌++◌, Text, codes, strip, is_space, join, truthy,
  take, if◌then◌else◌,
}
use llm_semantic_caching_lay.Prelude.Int.{ℤ}
use llm_semantic_caching_lay.Prelude.Decimal.{str_int}
use llm_semantic_caching_lay.Float.{Float}
use llm_semantic_caching_lay.Models.Chat.{or_empty}

pub record RequestSignature (F : Type 0) : Type 0 where
  pub model : Text
  pub provider : Text
  pub system_prompt : Option Text
  pub temperature : F
  pub max_tokens : Option ℤ
  pub tenant : Text

-- `(system_prompt or "").strip()`.
unfoldable pub normalized : Option Text → Text
unfolding or_empty strip is_space
normalized system_prompt = strip is_space (or_empty system_prompt)

module _ (hexdigest : Text → Text) where
  unfoldable pub hash_system_prompt : Option Text → Text
  hash_system_prompt system_prompt =
      let text = normalized system_prompt in
      if truthy text then take 16 (hexdigest text) else codes "no-system"

  unfoldable pub system_prompt_hash : {F : Type 0} → RequestSignature F → Text
  unfolding hash_system_prompt
  system_prompt_hash s = hash_system_prompt s.system_prompt

-- `str(max_tokens if max_tokens is not None else "default")`.
unfoldable pub max_tokens_part : Option ℤ → Text
unfolding str_int
max_tokens_part none = codes "default"
max_tokens_part (some i) = str_int i

module _ {F : Type 0} ⦃f : Float F⦄ where
  unfoldable pub temp_bucket : F → Text
  temp_bucket t = f.fixed 1 (f.round t 1)

  unfoldable pub raw : (Text → Text) → RequestSignature F → Text
  unfolding join
  raw hexdigest s = join (codes "|") (
      s.tenant
      ∷ s.provider
      ∷ s.model
      ∷ system_prompt_hash hexdigest s
      ∷ temp_bucket s.temperature
      ∷ max_tokens_part s.max_tokens
      ∷ [])

  -- Tenant, provider and model in clear, then the first 20 hexadecimal digits.
  unfoldable pub namespace : (Text → Text) → RequestSignature F → Text
  unfolding raw
  namespace hexdigest s =
      s.tenant
      ++ (codes ":"
          ++ (s.provider
              ++ (codes ":" ++ (s.model ++ (codes ":" ++ take 20 (hexdigest (raw hexdigest s)))))))
