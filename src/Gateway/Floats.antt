-- ===== src/Gateway/Floats.antt =====
-- Python's floats, as far as the Gateway uses them: a parameter of the model.
use kim_llm_serving.Prelude.{Bool, Option}
use kim_llm_serving.Prelude.Int.{ℤ}

-- `of_int` is `float(i)`: `none` where it raises OverflowError. `le a b` is `a <= b`, `gt a b` is
-- `a > b`, `eq a b` is `a == b`.
pub record Floats (F : Type 0) : Type 0 where
  pub of_int : ℤ → Option F
  pub is_finite : F → Bool
  pub le : F → F → Bool
  pub gt : F → F → Bool
  pub eq : F → F → Bool
  pub zero : F
  pub one : F
  pub two : F
