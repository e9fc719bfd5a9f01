-- ===== src/Domain/Canary/Floats.antt =====
-- Python's `float` as an interface: the numbers and the operations that the decisions use. Nothing
-- is assumed of them, so rounding and NaN are allowed.
use autonomous_development.Prelude.{Bool}

pub record Floats : Type 1 where
  pub Float : Type 0
  -- `<` and `<=`; `x > y` is `y < x`.
  pub lt : Float → Float → Bool
  pub le : Float → Float → Bool
  pub sub : Float → Float → Float
  pub div : Float → Float → Float
  pub zero_float : Float
  pub one_float : Float
