-- ===== src/Billing/Cost.antt =====
-- The charge for a period: `clipIntervalHours`, `ratesOf` and `computeCycleCost` of
-- services/billing-bridge/src/cycle.ts.
use nexus_infra.Prelude.{
  ℕ, String, true, false, Option, none, some, List, [], ◌∷◌, leb, min, max, if◌then◌else◌, or_else,
}
use nexus_infra.Prelude.Assoc.{Assoc, lookup, insert}
use nexus_infra.Billing.Number.{Numbers, literal, min_of}
use nexus_infra.Billing.Types.{BillingPlan, ServerBillingRecord}
use nexus_infra.Billing.Calendar.{CyclePeriod}
use nexus_infra.Billing.Pricing.{round_currency, resource_factor}
use nexus_infra.Billing.Tracking.{hours_between}

-- The hourly rate that a plan id stands for.
abbrev pub RateOf : Type 0 → Type 0
RateOf Num = String → Option Num

-- Where an interval begins and ends inside a period; an open one runs to the period's end.
unfoldable pub clipped_start : {Num : Type 0} → ServerBillingRecord Num → CyclePeriod → ℕ
clipped_start i period = max i.started_at period.start

unfoldable pub clipped_stop : {Num : Type 0} → ServerBillingRecord Num → CyclePeriod → ℕ
clipped_stop i period = min (or_else i.stopped_at period.end) period.end

-- A stable sort by start, as `Array.prototype.sort` is.
unfoldable pub insert_by_start :
    {Num : Type 0}
    → ServerBillingRecord Num
    → List (ServerBillingRecord Num)
    → List (ServerBillingRecord Num)
insert_by_start i [] = i ∷ []
insert_by_start i (j ∷ js) =
    if leb i.started_at j.started_at then i ∷ j ∷ js else j ∷ insert_by_start i js

unfoldable pub sort_by_start :
    {Num : Type 0} → List (ServerBillingRecord Num) → List (ServerBillingRecord Num)
unfolding insert_by_start
sort_by_start [] = []
sort_by_start (i ∷ is) = insert_by_start i (sort_by_start is)

prices : {Num : Type 0} → Assoc Num → List (BillingPlan Num) → Assoc Num
prices by_id [] = by_id
prices by_id (p ∷ plans) = prices (insert p.id p.price_per_hour by_id) plans

unfoldable pub rates_of : {Num : Type 0} → List (BillingPlan Num) → RateOf Num
unfolding prices
rates_of plans plan_id = lookup plan_id (prices [] plans)

-- `rateOf?.(planId) ?? plan.pricePerHour`
unfoldable pub rate_for : {Num : Type 0} → Option (RateOf Num) → BillingPlan Num → String → Num
rate_for none plan plan_id = plan.price_per_hour
rate_for (some rate_of) plan plan_id = or_else (rate_of plan_id) plan.price_per_hour

module _ (numbers : Numbers) where
  open numbers use {Num, plus, minus, times, less_eq}

  unfoldable pub clip_interval_hours : ServerBillingRecord Num → CyclePeriod → Num
  clip_interval_hours i period =
      let start = clipped_start i period in
      let stop = clipped_stop i period in
      if leb stop start then literal numbers 0 else hours_between numbers start stop

  -- The loop of `computeCycleCost`: the free hours that remain and the cost so far.
  unfoldable pub charge_intervals :
      BillingPlan Num
      → CyclePeriod
      → Option (RateOf Num)
      → Num
      → Num
      → List (ServerBillingRecord Num)
      → Num
  charge_intervals plan period rate_of remaining_free cost [] = cost
  charge_intervals plan period rate_of remaining_free cost (i ∷ is) =
      let h = clip_interval_hours i period in
      let free_applied = min_of numbers remaining_free h in
      let price = times (minus h free_applied) (rate_for rate_of plan i.plan_id) in
      elim (less_eq h (literal numbers 0)) [
        | true ↦ charge_intervals plan period rate_of remaining_free cost is
        | false ↦
            charge_intervals plan period rate_of (minus remaining_free free_applied)
              (plus cost (times price (resource_factor numbers i.limits))) is
      ]

  unfoldable pub compute_cycle_cost :
      List (ServerBillingRecord Num) → BillingPlan Num → CyclePeriod → Option (RateOf Num) → Num
  compute_cycle_cost intervals plan period rate_of = round_currency numbers (
      charge_intervals plan period rate_of plan.free_hours_per_month (literal numbers 0)
        (sort_by_start intervals))
