-- ===== src/Actions/Throws.antt =====
-- A value, or an error that is thrown.
pub data Outcome {ℓ} (A : Type ℓ) : Type ℓ where
  done : A → Outcome A
  thrown : Outcome A

infixl 5 ◌>>=◌
abbrev pub ◌>>=◌ {ℓ κ} : {A : Type ℓ} {B : Type κ} → Outcome A → (A → Outcome B) → Outcome B
Outcome.done a >>= f = f a
Outcome.thrown >>= f = Outcome.thrown
