-- ===== src/Float.antt =====
-- `f64`, as an interface: the operations that the source uses, and the documented behaviour that
-- single theorems rely on. A value of i64 is passed to `of_i64` as its bit pattern.
use andri.Common.{ℕ, ◌/◌, ◌%◌, Bool}

pub record Float : Type 1 where
  pub F : Type 0
  pub of_u64 : ℕ → F
  pub of_i64 : ℕ → F
  pub add : F → F → F
  pub sub : F → F → F
  pub mul : F → F → F
  pub div : F → F → F
  pub lt : F → F → Bool
  pub le : F → F → Bool
  pub floor : F → F
  pub to_u64 : F → ℕ

module _ (fl : Float) where
  open fl use {F, of_u64, add, div}

  -- `Duration::as_secs_f64` on a duration in nanoseconds.
  unfoldable pub as_secs_f64 : ℕ → F
  as_secs_f64 ns =
      add (of_u64 (ns / 1000000000)) (div (of_u64 (ns % 1000000000)) (of_u64 1000000000))
