-- ===== src/Prelude/Results.antt =====
-- A result that is a value or an error, for any type of errors.
pub data Checked {ℓ κ} (E : Type κ) (A : Type ℓ) : Type (ℓ ⊔ κ) where
  accepted : A → Checked E A
  rejected : E → Checked E A
