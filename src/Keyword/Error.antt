-- ===== src/Keyword/Error.antt =====
-- src/keyword/mod.rs: `KeywordError`, and results that carry it.
use poulpy_pir.Prelude.{ℕ, List}

pub data KeywordError : Type 0 where
  duplicate_key : List ℕ → KeywordError
  mphf_construction : KeywordError
  capacity_exceeded : (keys capacity : ℕ) → KeywordError

pub data KeywordResult {ℓ} (A : Type ℓ) : Type ℓ where
  ok : A → KeywordResult A
  err : KeywordError → KeywordResult A
