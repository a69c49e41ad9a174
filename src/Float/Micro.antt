-- ===== src/Float/Micro.antt =====
-- Non-negative fixed-point numbers of six decimals, on which the witnesses and the tests run.
use Prim.Native.Nat.{zero, suc}
use burnlens.Prelude.{ℕ, ◌-◌, ◌+◌, ◌*◌, ◌/◌, ltb, leb, arith}
use burnlens.Float.{Float}
use burnlens.Budget.Engine.Runs.{HasDifferences}
use burnlens.Trust.Calculator.Levels.{IsOrdered}

abbrev ten_to : ℕ → ℕ
ten_to zero = 1
ten_to (suc k) = 10 * ten_to k

instance abbrev pub micro : Float ℕ
micro = record {
  lit = λ n k. n * 1000000 / ten_to k;
  of_nat = λ n. n * 1000000;
  add = λ a b. a + b;
  sub = λ a b. a - b;
  mul = λ a b. a * b / 1000000;
  div = λ a b. a * 1000000 / b;
  lt = ltb;
  le = leb;
  neg = λ a. 0;
  round = λ a k. a;
}

pub micro-HasDifferences : HasDifferences ℕ
micro-HasDifferences = record {
  sub_not_above = λ a b h. ground arith;
  add_not_above = λ limit v d h k. ground arith;
}

pub micro-IsOrdered : IsOrdered ℕ
micro-IsOrdered = record {
  le_refl = λ a. ground arith;
  le_of_lt = λ a b h. ground arith;
  le_of_not_lt = λ a b h. ground arith;
  not_lt_self = λ a. ground arith;
}
