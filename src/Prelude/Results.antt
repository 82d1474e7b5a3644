-- ===== src/Prelude/Results.antt =====
-- What a call gives: a value, or the exception that it raised.
use mathlib.Core.Bool.{Bool, true, false}

pub data Outcome {ℓ} (E A : Type ℓ) : Type ℓ where
  ok : A → Outcome E A
  err : E → Outcome E A

-- `if not test: raise error`
unfoldable pub ensure : {E : Type 0} → Bool → E → Outcome E Unit
ensure true e = ok tt
ensure false e = err e
