-- ===== src/Prelude/Outcome.antt =====
-- The outcome of a fallible function: the error that it reports, or its value.
use mathlib.Core.Bool.{Bool, true, false}

pub data Result {ℓ} (E : Type ℓ) (A : Type ℓ) : Type ℓ where
  err : E → Result E A
  ok : A → Result E A

module _ {ℓ} {E : Type ℓ} where
  -- `if (!holds) return error;`
  abbrev pub guard : (holds : Bool) → (error : E) → Result E (Unit {ℓ})
  guard false error = err error
  guard true error = ok tt

  module _ {B : Type ℓ} where
    -- A sequence ends at its first error.
    infixl 5 ◌>>=◌
    abbrev pub ◌>>=◌ : {A : Type ℓ} → Result E A → (A → Result E B) → Result E B
    err error >>= next = err error
    ok value >>= next = next value

    infixl 5 ◌>>◌
    abbrev pub ◌>>◌ : Result E (Unit {ℓ}) → Result E B → Result E B
    first >> second = first >>= λ done. second
