-- ===== src/Prelude/Outcome.antt =====
-- `std::expected`: a value, or the error that a function returns by `std::unexpected`.
pub data Expected {ℓ κ} (A : Type ℓ) (E : Type κ) : Type (ℓ ⊔ κ) where
  value : A → Expected A E
  unexpected : E → Expected A E
