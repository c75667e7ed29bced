-- ===== src/Float64.antt =====
-- Go's `float64`, which is not defined by the program: a type with the operations that the program
-- applies to it. The laws that a theorem needs are hypotheses of that theorem, each of which holds of
-- IEEE 754 numbers, NaN and the infinities included.
use orkai_observability.Prelude.{◌*◌, ◌+◌, ◌-◌, ◌/◌, Bool, leb, ltb, ℕ}
use orkai_observability.Prelude.Int64.{Int64}

pub record Float64 (F : Type 0) : Type 0 where
  pub of_int : Int64 → F
  pub plus : F → F → F
  pub minus : F → F → F
  pub times : F → F → F
  pub over : F → F → F
  -- `a < b` and `a <= b`; both are false where an operand is NaN.
  pub lt : F → F → Bool
  pub le : F → F → Bool

-- Thousandths, for runs at concrete inputs.
instance abbrev pub thousandths : Float64 ℕ
thousandths = record {
  of_int = λ n. n * 1000;
  plus = λ a b. a + b;
  minus = λ a b. a - b;
  times = λ a b. a * b / 1000;
  over = λ a b. a * 1000 / b;
  lt = ltb;
  le = leb;
}
