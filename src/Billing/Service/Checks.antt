-- ===== src/Billing/Service/Checks.antt =====
-- What an account has left and what follows from it: `getUsage`, `getStanding`, `warnLowCredit` and
-- `settle` of services/billing-bridge/src/service.ts.
pub mod Steps
use nexus_infra.Prelude.{
  ℕ, String, Bool, true, false, not, Option, none, some, List, [], ◌∷◌, map, if◌then◌else◌, filter,
  any, is_empty,
}
use nexus_infra.Billing.Number.{Numbers}
use nexus_infra.Billing.Types.{BillingPlan, ServerBillingRecord}
use nexus_infra.Billing.Calendar.{current_period}
use nexus_infra.Billing.Cost.{rates_of}
use nexus_infra.Billing.Standing.{
  Usage, Standing, LowCreditStep, warn, clear, nothing, usage_in, compute_standing, low_credit_step,
}
use nexus_infra.Billing.Repository.{
  is_open, unique, get_user_plan, list_intervals, list_plans, list_cycles, get_wallet,
  list_billable_user_ids, get_low_credit_warned_at, set_low_credit_warned_at,
}
use nexus_infra.Billing.Service.{
  Deps, Action, ◌>>=◌, ◌>>◌, pure, reads, writes, updates, emit, credit_low, server_suspend,
}

pub record UsageReport (Num : Type 0) : Type 0 where
  pub usage : Usage Num
  pub plan : BillingPlan Num

pub record Suspension : Type 0 where
  pub user_id : String
  pub deployment_ids : List String

-- The deployments of a user's open intervals, each once.
unfoldable pub running_deployments : {Num : Type 0} → List (ServerBillingRecord Num) → List String
running_deployments intervals = unique (map (λ i. i.deployment_id) (filter is_open intervals))

module _ (numbers : Numbers) (deps : Deps (numbers.Num)) where
  open numbers use {Num}

  unfoldable pub get_usage : ℕ → String → Action Num (UsageReport Num)
  get_usage now user_id = do
    plan ← reads (get_user_plan numbers user_id)
    intervals ← reads (list_intervals user_id)
    plans ← reads list_plans
    pure (record {
      usage = usage_in numbers intervals plan (current_period now) (some (rates_of plans));
      plan = plan;
    })

  unfoldable pub get_standing : ℕ → String → Action Num (Standing Num)
  get_standing now user_id = do
    plan ← reads (get_user_plan numbers user_id)
    intervals ← reads (list_intervals user_id)
    wallet ← updates (get_wallet numbers user_id)
    cycles ← reads (list_cycles user_id)
    plans ← reads list_plans
    pure (
        compute_standing numbers (record {
          balance = wallet.balance;
          currency = wallet.currency;
          intervals = intervals;
          cycles = cycles;
          plan = plan;
          now = now;
          rate_of = some (rates_of plans);
          low_credit_hours = some deps.low_credit_hours;
        }))

  -- The mark is set only when the broker took the warning.
  send_warning : ℕ → String → Standing Num → Option Num → Action Num Bool
  send_warning now user_id standing none = pure false
  send_warning now user_id standing (some hours_left) = do
    sent ← emit deps (credit_low user_id hours_left standing.available standing.currency)
    if not sent
        then pure false
        else do writes (set_low_credit_warned_at numbers user_id (some now)); pure true

  act_on : ℕ → String → Standing Num → LowCreditStep → Action Num Bool
  unfolding send_warning
  act_on now user_id standing warn = send_warning now user_id standing standing.hours_left
  act_on now user_id standing clear = do
    writes (set_low_credit_warned_at numbers user_id none)
    pure false
  act_on now user_id standing nothing = pure false

  -- One round of the loop of `warnLowCredit`: whether the account was warned.
  unfoldable pub warn_account : ℕ → String → Action Num Bool
  unfolding act_on
  warn_account now user_id = do
    intervals ← reads (list_intervals user_id)
    if not (any is_open intervals) then pure false else do
      standing ← get_standing now user_id
      if not standing.can_run then pure false else do
        warned_at ← reads (get_low_credit_warned_at user_id)
        act_on now user_id standing
            (low_credit_step numbers standing.hours_left deps.low_credit_hours warned_at)

  unfoldable pub warn_each : ℕ → List String → Action Num (List String)
  warn_each now [] = pure []
  warn_each now (user_id ∷ user_ids) = do
    warned ← warn_account now user_id
    rest ← warn_each now user_ids
    pure (if warned then user_id ∷ rest else rest)

  unfoldable pub warn_low_credit : ℕ → Action Num (List String)
  warn_low_credit now = do user_ids ← reads list_billable_user_ids; warn_each now user_ids

  -- One round of the loop of `settle`: the servers that were told to stop, if any.
  unfoldable pub settle_account : ℕ → String → Action Num (List String)
  settle_account now user_id = do
    intervals ← reads (list_intervals user_id)
    let running = running_deployments intervals
    if is_empty running then pure [] else do
      standing ← get_standing now user_id
      if standing.can_run
          then pure []
          else do _ ← emit deps (server_suspend user_id running); pure running

  unfoldable pub settle_each : ℕ → List String → Action Num (List Suspension)
  settle_each now [] = pure []
  settle_each now (user_id ∷ user_ids) = do
    stopped ← settle_account now user_id
    rest ← settle_each now user_ids
    pure (
        if is_empty stopped
        then rest
        else record { user_id = user_id; deployment_ids = stopped } ∷ rest)

  unfoldable pub settle : ℕ → Action Num (List Suspension)
  settle now = do user_ids ← reads list_billable_user_ids; settle_each now user_ids
