-- ===== src/Billing/Calendar/Months.antt =====
-- Calendar months partition time, and the billed month ends where the month in progress begins.
use nexus_infra.Prelude.{
  ℕ, zero, suc, ◌+◌, ◌-◌, ◌*◌, ◌/◌, ◌%◌, ◌≤◌, ◌<◌, ◌≡◌, refl, sym, ◌∙◌, inl, inr, false, ◌↔◌, arith,
  ltb, Bool-cases,
}
use nexus_infra.Billing.Calendar.{
  CyclePeriod, ms_per_day, days_in_month, month_ms, month_from, month_period_of,
  previous_month_period,
}

-- When the month that is `k` months after January 1970 begins.
pub month_start : ℕ → ℕ
month_start zero = 0
month_start (suc k) = month_start k + month_ms k

abbrev month : ℕ → CyclePeriod
month k = record { start = month_start k; end = month_start (suc k) }

days_in_month_long : (y m : ℕ) → 28 ≤ days_in_month y m
unfolding days_in_month
days_in_month_long y m = ground arith

month_ms_long : (k : ℕ) → ms_per_day < month_ms k
unfolding month_ms
month_ms_long k = omega (arith, days_in_month_long (1970 + k / 12) (k % 12))

month_start_mono : (k j : ℕ) → k ≤ j → month_start k ≤ month_start j
unfolding month_start
month_start_mono k zero h = let e : k ≡ 0 = omega arith in rw e (omega arith)
month_start_mono k (suc j) h = elim (Bool-cases (ltb j k)) [
  | inl last ↦ let e : k ≡ suc j = ground arith in rw e (omega arith)
  | inr before ↦ omega (arith, month_start_mono k j (ground arith))
]

month_zero : month_start 0 ≡ 0
unfolding month_start
month_zero = refl

month_step : (k : ℕ) → month_start k < month_start (suc k)
unfolding month_start
month_step k = omega (arith, month_ms_long k)

-- Two months that hold one instant are the same.
month_unique : (k j t : ℕ) → k ≤ j → month_start j ≤ t → t < month_start (suc k) → j ≡ k
month_unique k j t h lo hi = elim (Bool-cases (ltb k j)) [
  | inl before ↦ absurd (omega (arith, month_start_mono (suc k) j (ground arith)))
  | inr same ↦ ground arith
]

-- The walk finds the month `j` that holds `t`, if it starts no later and has the fuel.
month_from_lem :
    (fuel k j t : ℕ)
    → k ≤ j
    → month_start j ≤ t
    → t < month_start (suc j)
    → t < month_start k + fuel * ms_per_day + ms_per_day
    → month_from fuel k (month_start k) t ≡ month j
unfolding month_from month_start
month_from_lem zero k j t h lo hi enough =
    let e : j ≡ k = month_unique k j t h lo (omega (arith, month_ms_long k)) in rw e
month_from_lem (suc fuel) k j t h lo hi enough =
    elim (Bool-cases (ltb t (month_start k + month_ms k))) [
      | inl here ↦
          let e : j ≡ k = month_unique k j t h lo (ground arith) in rw (here, month_from) (rw e)
      | inr later ↦
          rw (later, month_from)
            (month_from_lem fuel (suc k) j t (later_month later) lo hi
              (omega (arith, month_ms_long k)))
    ]
  where
    later_month : ltb t (month_start k + month_ms k) ≡ false → suc k ≤ j
    later_month later = elim (Bool-cases (ltb k j)) [
      | inl before ↦ ground arith
      | inr same ↦
          let e : j ≡ k = ground arith in
          let bound : t < month_start k + month_ms k = rw e at hi in absurd (ground arith)
    ]

-- Every instant lies in one month.
find_month :
    (k t : ℕ) → t < month_start k → (j : ℕ) × (month_start j ≤ t) × (t < month_start (suc j))
unfolding month_start
find_month zero t h = absurd (omega arith)
find_month (suc k) t h = elim (Bool-cases (ltb t (month_start k))) [
  | inl before ↦ find_month k t (ground arith)
  | inr after ↦ (k, ground arith, h)
]

far_enough : (t : ℕ) → t < month_start (suc t)
far_enough zero = omega (arith, month_step 0)
far_enough (suc t) = omega (arith, far_enough t, month_step (suc t))

month_of : (t : ℕ) → (j : ℕ) × (month_start j ≤ t) × (t < month_start (suc j))
month_of t = find_month (suc t) t (far_enough t)

month_period_of_lem :
    (j t : ℕ) → month_start j ≤ t → t < month_start (suc j) → month_period_of t ≡ month j
unfolding month_period_of month_start
month_period_of_lem j t lo hi =
    month_from_lem (t / ms_per_day) 0 j t (omega arith) lo hi (omega arith)

-- The month of an instant contains it.
month_period_of-contains : (t : ℕ) → ((month_period_of t).start ≤ t) × (t < (month_period_of t).end)
month_period_of-contains t =
    let (j, lo, hi) = month_of t in rw (month_period_of_lem j t lo hi) (lo, hi)

-- Every instant of a month has that month.
month_period_of_same :
    (t u : ℕ)
    → (month_period_of t).start ≤ u
    → u < (month_period_of t).end
    → month_period_of u ≡ month_period_of t
month_period_of_same t u lo hi =
    let (j, from, to) = month_of t in
    let e = month_period_of_lem j t from to in
    month_period_of_lem j u (rw e at lo) (rw e at hi) ∙ sym e

-- An instant lies in the month of another exactly when both have the same month.
pub month_period_of_iff :
    (t u : ℕ)
    → (((month_period_of t).start ≤ u) × (u < (month_period_of t).end))
      ↔ (month_period_of u ≡ month_period_of t)
month_period_of_iff t u = (
  λ inside. month_period_of_same t u inside.0 inside.1,
  λ same. rw (← same) (month_period_of-contains u),
)

previous_of_month :
    (j t : ℕ)
    → month_start j ≤ t
    → t < month_start (suc j)
    → 0 < month_start j
    → (previous_month_period t).end ≡ month_start j
unfolding previous_month_period
previous_of_month zero t lo hi after = absurd (omega (arith, month_zero))
previous_of_month (suc i) t lo hi after = rw (month_period_of_lem (suc i) t lo hi) (
    rw
      (month_period_of_lem i (month_start (suc i) - 1) (omega (arith, month_step i)) (omega arith)))

-- The month that the cycle runner bills ends exactly where the month in progress begins, from
-- February 1970 on.
pub previous_month_period-end :
    (t : ℕ)
    → 0 < (month_period_of t).start
    → (previous_month_period t).end ≡ (month_period_of t).start
previous_month_period-end t after =
    let (j, lo, hi) = month_of t in
    let e = month_period_of_lem j t lo hi in rw e (previous_of_month j t lo hi (rw e at after))
