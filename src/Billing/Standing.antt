-- ===== src/Billing/Standing.antt =====
-- An account's standing: services/billing-bridge/src/standing.ts.
use nexus_infra.Prelude.{
  ℕ, String, Bool, false, ◌&&◌, ◌||◌, Option, none, some, List, [], ◌∷◌, ◌==◌, length,
  if◌then◌else◌, or_else, is_none, any,
}
use nexus_infra.Prelude.Assoc.{Assoc, insert, values}
use nexus_infra.Billing.Number.{Numbers, literal, max_of}
use nexus_infra.Billing.Types.{BillingPlan, ServerBillingRecord, BillingCycleRecord}
use nexus_infra.Billing.Calendar.{CyclePeriod, current_period, previous_month_period}
use nexus_infra.Billing.Pricing.{round_currency, resource_factor}
use nexus_infra.Billing.Cost.{RateOf, rate_for, clip_interval_hours, compute_cycle_cost}

pub record Usage (Num : Type 0) : Type 0 where
  pub hours : Num
  pub cost : Num

pub record Standing (Num : Type 0) : Type 0 where
  pub balance : Num
  pub accrued : Num
  pub available : Num
  pub free_hours_left : Num
  pub can_run : Bool
  pub currency : String
  pub hours_left : Option Num
  pub runs_low : Bool

pub data LowCreditStep : Type 0 where
  warn clear nothing : LowCreditStep

pub record BurnRate (Num : Type 0) : Type 0 where
  pub per_hour : Num
  pub running : ℕ

pub record StandingInput (Num : Type 0) : Type 0 where
  pub balance : Num
  pub currency : String
  pub intervals : List (ServerBillingRecord Num)
  pub cycles : List (BillingCycleRecord Num)
  pub plan : BillingPlan Num
  pub now : ℕ
  pub rate_of : Option (RateOf Num)
  pub low_credit_hours : Option Num

-- The last open interval of each deployment, in the order in which the deployments come first.
unfoldable pub open_by_deployment :
    {Num : Type 0}
    → Assoc (ServerBillingRecord Num)
    → List (ServerBillingRecord Num)
    → Assoc (ServerBillingRecord Num)
open_by_deployment seen [] = seen
open_by_deployment seen (i ∷ is) =
    open_by_deployment (if is_none i.stopped_at then insert i.deployment_id i seen else seen) is

module _ (numbers : Numbers) where
  open numbers use {Num, decimal, plus, minus, times, over, round, less, less_eq}

  abbrev pub default_low_credit_hours : Num
  default_low_credit_hours = literal numbers 24

  spend : BillingPlan Num → Option (RateOf Num) → Num → List (ServerBillingRecord Num) → Num
  spend plan rate_of per_hour [] = per_hour
  spend plan rate_of per_hour (i ∷ is) =
      spend plan rate_of
        (plus per_hour (times (rate_for rate_of plan i.plan_id) (resource_factor numbers i.limits)))
        is

  unfoldable pub burn_rate :
      List (ServerBillingRecord Num) → BillingPlan Num → Option (RateOf Num) → BurnRate Num
  unfolding spend open_by_deployment
  burn_rate intervals plan rate_of =
      let running = values (open_by_deployment [] intervals) in
      record { per_hour = spend plan rate_of (literal numbers 0) running; running = length running }

  -- To one decimal.
  unfoldable pub runway_hours : Num → Num → BurnRate Num → Option Num
  runway_hours available free_hours_left rate =
      if (rate.running == 0) || less_eq rate.per_hour (literal numbers 0)
      then none
      else some (
          over
            (round (
              times
                (plus
                  (if less_eq (literal numbers 0) available
                    then over free_hours_left (literal numbers rate.running)
                    else literal numbers 0)
                  (over (max_of numbers (literal numbers 0) available) rate.per_hour))
                (literal numbers 10)))
            (literal numbers 10))

  unfoldable pub low_credit_step : Option Num → Num → Option ℕ → LowCreditStep
  low_credit_step none threshold warned_at = nothing
  low_credit_step (some hours_left) threshold warned_at =
      if less hours_left threshold
      then if is_none warned_at then warn else nothing
      else if is_none warned_at
      then nothing
      else clear

  sum_hours : CyclePeriod → Num → List (ServerBillingRecord Num) → Num
  sum_hours period sum [] = sum
  sum_hours period sum (i ∷ is) =
      sum_hours period (plus sum (clip_interval_hours numbers i period)) is

  unfoldable pub round_hours : Num → Num
  round_hours hours = over (round (times hours (literal numbers 1000))) (literal numbers 1000)

  unfoldable pub usage_in :
      List (ServerBillingRecord Num)
      → BillingPlan Num
      → CyclePeriod
      → Option (RateOf Num)
      → Usage Num
  unfolding sum_hours
  usage_in intervals plan period rate_of = record {
    hours = round_hours (sum_hours period (literal numbers 0) intervals);
    cost = compute_cycle_cost numbers intervals plan period rate_of;
  }

  unfoldable pub previously_billed : StandingInput Num → Bool
  previously_billed input =
      any (λ c. c.period_start == (previous_month_period input.now).start) input.cycles

  -- The closed month, until the cycle runner has charged it.
  unfoldable pub unbilled_previous : StandingInput Num → Num
  unbilled_previous input =
      if previously_billed input
      then literal numbers 0
      else (usage_in input.intervals input.plan (previous_month_period input.now)
          input.rate_of).cost

  abbrev runs_under : Option Num → Num → Bool
  runs_under none threshold = false
  runs_under (some hours) threshold = less hours threshold

  unfoldable pub compute_standing : StandingInput Num → Standing Num
  compute_standing input =
      let this_month =
        usage_in input.intervals input.plan (current_period input.now) input.rate_of in
      let accrued = round_currency numbers (plus this_month.cost (unbilled_previous input)) in
      let available = round_currency numbers (minus input.balance accrued) in
      let free_hours_left =
        max_of numbers (literal numbers 0)
          (round_hours (minus input.plan.free_hours_per_month this_month.hours)) in
      let hours_left =
        runway_hours available free_hours_left
          (burn_rate input.intervals input.plan input.rate_of) in
      record {
        balance = input.balance;
        accrued = accrued;
        available = available;
        free_hours_left = free_hours_left;
        can_run =
            less (literal numbers 0) available
            || (less_eq (literal numbers 0) available && less (literal numbers 0) free_hours_left);
        currency = input.currency;
        hours_left = hours_left;
        runs_low = runs_under hours_left (or_else input.low_credit_hours default_low_credit_hours);
      }
