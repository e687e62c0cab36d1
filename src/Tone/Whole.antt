-- ===== src/Tone/Whole.antt =====
-- Whole numbers in place of floating-point ones, for the tests.
use o_walkie.Base.{ℕ, ◌+◌, ◌-◌, ◌*◌, pos, ltb, leb}
use o_walkie.Tone.Double.{DoubleLib}

abbrev pub whole : DoubleLib
whole = record {
  Double = ℕ;
  literal = λ text. 1;
  of_int = λ n. n;
  add = λ x y. x + y;
  sub = λ x y. x - y;
  mul = λ x y. x * y;
  div = λ x y. x;
  lt = λ x y. ltb x y;
  le = λ x y. leb x y;
  sin = λ x. x;
  lround = λ x. pos (x * 40000);
}
