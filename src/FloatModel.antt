-- ===== src/FloatModel.antt =====
-- Models of the interface of f64 in whole numbers and in fixed point, for runs at concrete inputs
-- only: they show that the documented behaviour which theorems assume can hold.
pub mod Rational
use andri.Common.{ℕ, ◌+◌, ◌-◌, ◌*◌, ◌/◌, ltb, leb}
use andri.Float.{Float}

abbrev pub whole : Float
whole = record {
  F = ℕ;
  of_u64 = λ n. n;
  of_i64 = λ n. n;
  add = λ a b. a + b;
  sub = λ a b. a - b;
  mul = λ a b. a * b;
  div = λ a b. a / b;
  lt = λ a b. ltb a b;
  le = λ a b. leb a b;
  floor = λ a. a;
  to_u64 = λ a. a;
}

-- Fixed point: a number is a count of `d`-th parts.
abbrev pub fixed_point : ℕ → Float
fixed_point d = record {
  F = ℕ;
  of_u64 = λ n. n * d;
  of_i64 = λ n. n * d;
  add = λ a b. a + b;
  sub = λ a b. a - b;
  mul = λ a b. a * b / d;
  div = λ a b. a * d / b;
  lt = λ a b. ltb a b;
  le = λ a b. leb a b;
  floor = λ a. a / d * d;
  to_u64 = λ a. a / d;
}
