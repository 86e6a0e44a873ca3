-- ===== src/Billing/Calendar.antt =====
-- The UTC calendar month of an instant: `monthPeriodOf` and `previousMonthPeriod` of
-- services/billing-bridge/src/cycle.ts and `currentPeriod` of standing.ts, with what they use of
-- the Gregorian calendar of `Date`. Instants are epoch milliseconds, so not before 1970.
pub mod Months
mod Tests
use nexus_infra.Prelude.{
  ℕ, zero, suc, ◌+◌, ◌-◌, ◌*◌, ◌/◌, ◌%◌, Bool, true, false, not, ◌&&◌, ◌||◌, ltb, ◌==◌,
  if◌then◌else◌,
}

-- Start inclusive, end exclusive.
pub record CyclePeriod : Type 0 where
  pub start : ℕ
  pub end : ℕ

abbrev pub ms_per_day : ℕ
ms_per_day = 86400000

unfoldable pub is_leap : ℕ → Bool
is_leap y = (y % 4 == 0) && (not (y % 100 == 0) || (y % 400 == 0))

-- Month 0 is January.
unfoldable pub days_in_month : ℕ → ℕ → ℕ
unfolding is_leap
days_in_month y m =
    if m == 1
    then if is_leap y then 29 else 28
    else if (m == 3) || (m == 5) || (m == 8) || (m == 10)
    then 30
    else 31

-- The length of the month that begins `k` months after January 1970.
unfoldable pub month_ms : ℕ → ℕ
unfolding days_in_month
month_ms k = days_in_month (1970 + k / 12) (k % 12) * ms_per_day

-- Walks the months from the one that is `k` months after January 1970 and begins at `start`.
unfoldable pub month_from : ℕ → ℕ → ℕ → ℕ → CyclePeriod
month_from zero k start t = record { start = start; end = start + month_ms k }
month_from (suc fuel) k start t = elim (ltb t (start + month_ms k)) [
  | true ↦ record { start = start; end = start + month_ms k }
  | false ↦ month_from fuel (suc k) (start + month_ms k) t
]

-- A month is longer than a day, so one round for each day since 1970 is enough.
unfoldable pub month_period_of : ℕ → CyclePeriod
unfolding month_from month_ms
month_period_of t = month_from (t / ms_per_day) 0 0 t

unfoldable pub previous_month_period : ℕ → CyclePeriod
previous_month_period t = month_period_of ((month_period_of t).start - 1)

-- The month in progress, ending now.
unfoldable pub current_period : ℕ → CyclePeriod
current_period now = record { start = (month_period_of now).start; end = now }
