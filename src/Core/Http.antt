-- ===== src/Core/Http.antt =====
-- A response of Starlette, as far as the program sets it: its status, its headers, and its content,
-- which `C` leaves open.
use llm_semantic_caching_lay.Prelude.{ℕ, Text, []}
use llm_semantic_caching_lay.Prelude.Dict.{Dict}

pub record Reply (C : Type 0) : Type 0 where
  pub status : ℕ
  pub headers : Dict Text
  pub content : C

-- A response with the default status and no headers of its own.
abbrev pub plain : {C : Type 0} → C → Reply C
plain content = record { status = 200; headers = []; content = content }
