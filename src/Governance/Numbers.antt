-- ===== src/Governance/Numbers.antt =====
-- JavaScript's numbers, as far as the packages compute with them.
use code_kit_ultra.Base.{ℕ, Bool}

-- `lt` is `<`, `eq` is `===`, `whole` a whole literal, and `is_falsy` holds of zero and of NaN.
pub record Numbers (N : Type 0) : Type 0 where
  pub lt : N → N → Bool
  pub eq : N → N → Bool
  pub whole : ℕ → N
  pub is_falsy : N → Bool
