-- ===== src/Python/Float.antt =====
-- Python's `float`: a double is its bit pattern, and the operations that the code uses on it are
-- given by the machine. The theorems hold for every such `Floats`, unless they name a law.
use pondsecndr.Prelude.{List, ℕ, Bool, if◌then◌else◌}
use pondsecndr.Prelude.Int.{ℤ}

pub record Float : Type 0 where
  pub bits : ℕ

pub record Floats : Type 0 where
  -- `float(n)`, and the literal d · 10⁻ᵉ.
  pub of_int : ℤ → Float
  pub decimal : (d e : ℕ) → Float
  -- `sum(xs)`
  pub sum : List Float → Float
  pub add : Float → Float → Float
  pub mul : Float → Float → Float
  pub div : Float → Float → Float
  -- `x < y`
  pub lt : Float → Float → Bool
  -- `x == 0.0`, which holds of -0.0 too.
  pub is_zero : Float → Bool
  -- Neither infinite nor no number, and no number.
  pub is_finite : Float → Bool
  pub is_nan : Float → Bool
  -- `int(x)` of a finite number.
  pub trunc : Float → ℤ
  -- `round(x, n)`
  pub round : Float → ℕ → Float

module _ (floats : Floats) where
  -- `max(x, y)` and `min(x, y)` keep the first argument unless the second one is better.
  abbrev pub float_max : Float → Float → Float
  float_max x y = if floats.lt x y then y else x

  abbrev pub float_min : Float → Float → Float
  float_min x y = if floats.lt y x then y else x

  -- `x or 0.0`
  abbrev pub or_zero : Float → Float
  or_zero x = if floats.is_zero x then floats.decimal 0 0 else x
