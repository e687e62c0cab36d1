-- ===== src/Tone/Double.antt =====
-- The arithmetic of `double` that signal.cpp uses. `literal` is the value of a decimal literal, and
-- `lround` is std::lround with the conversion to int.
use Prim.Native.String.{String}
use o_walkie.Base.{ℕ, ℤ, Bool}

pub record DoubleLib : Type 1 where
  pub Double : Type 0
  pub literal : String → Double
  pub of_int : ℕ → Double
  pub add : Double → Double → Double
  pub sub : Double → Double → Double
  pub mul : Double → Double → Double
  pub div : Double → Double → Double
  pub lt : Double → Double → Bool
  pub le : Double → Double → Bool
  pub sin : Double → Double
  pub lround : Double → ℤ
