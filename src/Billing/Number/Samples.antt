-- ===== src/Billing/Number/Samples.antt =====
-- Numbers to run the code on: an instance of the parameter for tests.
use nexus_infra.Prelude.{ℕ, zero, suc, ◌+◌, ◌-◌, ◌*◌, ◌/◌, true, ltb, leb}
use nexus_infra.Billing.Number.{Numbers}

-- Amounts that are never negative, counted in ten-thousandths.
abbrev ten_to : ℕ → ℕ
ten_to zero = 1
ten_to (suc n) = 10 * ten_to n

abbrev pub amounts : Numbers
amounts = record {
  Num = ℕ;
  decimal = λ m e. m * 10000 / ten_to e;
  neg = λ a. 0;
  plus = λ a b. a + b;
  minus = λ a b. a - b;
  times = λ a b. a * b / 10000;
  over = λ a b. a * 10000 / b;
  round = λ a. (a + 5000) / 10000 * 10000;
  less = ltb;
  less_eq = leb;
  is_finite = λ a. true;
  is_integer = λ a. true;
}
