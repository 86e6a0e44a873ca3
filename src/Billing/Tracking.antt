-- ===== src/Billing/Tracking.antt =====
-- Runtime hours: services/billing-bridge/src/tracking.ts.
use nexus_infra.Prelude.{ℕ, ◌-◌, Option, List, [], ◌∷◌, ltb, if◌then◌else◌, or_else}
use nexus_infra.Billing.Number.{Numbers, literal}

abbrev pub ms_per_hour : ℕ
ms_per_hour = 3600000

pub record RuntimeInterval : Type 0 where
  pub started_at : ℕ
  pub stopped_at : Option ℕ

module _ (numbers : Numbers) where
  open numbers use {Num, plus, over}

  -- Zero for bad ordering.
  unfoldable pub hours_between : ℕ → ℕ → Num
  hours_between start end =
      if ltb start end
      then over (literal numbers (end - start)) (literal numbers ms_per_hour)
      else literal numbers 0

  accrue : ℕ → Num → List RuntimeInterval → Num
  accrue now sum [] = sum
  accrue now sum (i ∷ is) =
      accrue now (plus sum (hours_between i.started_at (or_else i.stopped_at now))) is

  unfoldable pub accrued_hours : List RuntimeInterval → ℕ → Num
  unfolding accrue
  accrued_hours intervals now = accrue now (literal numbers 0) intervals
