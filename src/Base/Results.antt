-- ===== src/Base/Results.antt =====
-- Calls that may raise: a value, or the error that was raised.
pub data Result {ℓ} (E : Type 0) (A : Type ℓ) : Type ℓ where
  ok : A → Result E A
  err : E → Result E A

-- What follows a call that returned; what it raised passes through.
infixl 5 ◌>>=◌
abbrev pub ◌>>=◌ {κ ℓ} :
    {E : Type 0} {B : Type κ} {A : Type ℓ} → Result E A → (A → Result E B) → Result E B
err raised >>= next = err raised
ok value >>= next = next value
