-- ===== src/Prelude/Floats.antt =====
-- What the code does with a float64: comparisons, whole numbers and arithmetic, over any type.
use mathlib.Core.Bool.{Bool}
use akoflow.Prelude.Int.{ℤ}

-- `floor` is the conversion int(math.Floor(x)).
pub record Float {ℓ} (F : Type ℓ) : Type ℓ where
  pub lt : F → F → Bool
  pub eq : F → F → Bool
  pub of_int : ℤ → F
  pub floor : F → ℤ
