-- ===== src/Base/Results.antt =====
-- A Go result with an error: what was returned, or the error's text.
use Prim.Native.String.{String}

pub data Result {ℓ} (A : Type ℓ) : Type ℓ where
  ok : A → Result A
  err : String → Result A
