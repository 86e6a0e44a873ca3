-- ===== src/Billing/Number.antt =====
-- JavaScript numbers, where the billing code uses fractions. They are floating point, so the type
-- and its operations are a parameter: no law of exact arithmetic is assumed.
pub mod Samples
use nexus_infra.Prelude.{ℕ, Bool, if◌then◌else◌}

pub record Numbers : Type 1 where
  pub Num : Type 0
  -- `decimal m e` is the literal m * 10^-e: `0.02` is `decimal 2 2`.
  pub decimal : ℕ → ℕ → Num
  pub neg : Num → Num
  pub plus : Num → Num → Num
  pub minus : Num → Num → Num
  pub times : Num → Num → Num
  pub over : Num → Num → Num
  -- `Math.round`, and `a < b` and `a <= b`.
  pub round : Num → Num
  pub less : Num → Num → Bool
  pub less_eq : Num → Num → Bool
  -- `Number.isFinite`, `Number.isInteger`.
  pub is_finite : Num → Bool
  pub is_integer : Num → Bool

module _ (numbers : Numbers) where
  open numbers use {Num, decimal, less, less_eq, neg}

  abbrev pub literal : ℕ → Num
  literal n = decimal n 0

  -- `Math.max`, `Math.min` and `Math.abs` of numbers that are not NaN.
  abbrev pub max_of : Num → Num → Num
  max_of a b = if less a b then b else a

  abbrev pub min_of : Num → Num → Num
  min_of a b = if less b a then b else a

  abbrev pub abs : Num → Num
  abs a = if less a (literal 0) then neg a else a
