-- ===== src/Billing/Calendar/Tests.antt =====
-- Tests and instances of the theorems about the calendar months.
use nexus_infra.Prelude.{ℕ, ◌≤◌, ◌<◌, ◌≡◌, ◌↔◌, refl, arith}
use nexus_infra.Billing.Calendar.{month_period_of, previous_month_period}
use nexus_infra.Billing.Calendar.Months.{month_period_of_iff, previous_month_period-end}

-- 15 March 1972, a leap year.
abbrev march : ℕ
march = 69465600000

march_1972 : month_period_of march ≡ record { start = 68256000000; end = 70934400000 }
unfolding month_period_of
march_1972 = refl

february_1972 : previous_month_period march ≡ record { start = 65750400000; end = 68256000000 }
unfolding previous_month_period month_period_of
february_1972 = refl

month_period_of_iff_example :
    (((month_period_of march).start ≤ 70000000000) × (70000000000 < (month_period_of march).end))
    ↔ (month_period_of 70000000000 ≡ month_period_of march)
month_period_of_iff_example = month_period_of_iff march 70000000000

previous_month_period-end_example :
    (previous_month_period march).end ≡ (month_period_of march).start
unfolding month_period_of
previous_month_period-end_example = previous_month_period-end march (omega arith)
