-- ===== src/Billing/Service/Cycle.antt =====
-- The monthly run: `runBillingCycle` of services/billing-bridge/src/cycle.ts.
pub mod Steps
use nexus_infra.Prelude.{
  ℕ, String, Bool, true, false, some, List, [], ◌∷◌, ◌==◌, if◌then◌else◌, any, is_empty, concat,
}
use nexus_infra.Billing.Number.{Numbers, literal}
use nexus_infra.Billing.Types.{
  BillingPlan, ServerBillingRecord, CycleStatus, paid, overdue, charge, confirmed,
}
use nexus_infra.Billing.Calendar.{CyclePeriod}
use nexus_infra.Billing.Wallet.{apply_charge, can_cover}
use nexus_infra.Billing.Cost.{RateOf, rates_of, compute_cycle_cost}
use nexus_infra.Billing.Repository.{
  get_user_plan, list_intervals, list_plans, list_cycles, get_wallet, set_balance,
  create_ledger_entry, get_wallet_email, create_cycle, list_billable_user_ids,
}
use nexus_infra.Billing.Service.TopUps.{given}
use nexus_infra.Billing.Service.{
  Deps, Action, ◌>>=◌, ◌>>◌, pure, reads, writes, updates, fresh_id, emit, server_suspend,
  invoice_generate,
}
use nexus_infra.Billing.Service.Checks.{running_deployments}

pub record CycleOutcome (Num : Type 0) : Type 0 where
  pub user_id : String
  pub cost : Num
  pub status : CycleStatus
  pub suspended_deployment_ids : List String

-- What charging an account came to.
pub record Collection : Type 0 where
  pub status : CycleStatus
  pub suspended : List String

module _ (numbers : Numbers) (deps : Deps (numbers.Num)) where
  open numbers use {Num, less}

  -- The short account's servers are told to stop.
  suspend_short : String → List String → Bool → Action Num Collection
  suspend_short user_id running true = pure (record { status = paid; suspended = [] })
  suspend_short user_id running false =
      if is_empty running then pure (record { status = overdue; suspended = [] }) else do
        _ ← emit deps (server_suspend user_id running)
        pure (record { status = overdue; suspended = running })

  -- The block for `cost > 0`.
  unfoldable pub collect :
      ℕ
      → CyclePeriod
      → String
      → BillingPlan Num
      → List (ServerBillingRecord Num)
      → Num
      → Action Num Collection
  unfolding suspend_short
  collect now period user_id plan intervals cost = do
    wallet ← updates (get_wallet numbers user_id)
    entry_id ← fresh_id deps
    writes (
        create_ledger_entry entry_id now (record {
          user_id = user_id;
          kind = charge;
          amount = cost;
          currency = plan.currency;
          reference = concat ("charge-" ∷ deps.to_iso_string period.start ∷ "-" ∷ user_id ∷ []);
          status = confirmed;
          description = concat ("Usage for " ∷ deps.period_label period.start ∷ []);
        }))
    _ ← updates (set_balance numbers user_id (apply_charge numbers wallet.balance cost))
    collected ←
        suspend_short user_id (running_deployments intervals)
          (can_cover numbers wallet.balance cost)
    customer_email ← reads (get_wallet_email user_id)
    _ ← emit deps (
        invoice_generate
          (concat ("invoice-" ∷ deps.to_iso_string period.start ∷ "-" ∷ user_id ∷ [])) user_id
          period.start period.end cost plan.currency (given customer_email))
    pure collected

  unfoldable pub already_billed : CyclePeriod → String → Action Num Bool
  already_billed period user_id = do
    cycles ← reads (list_cycles user_id)
    pure (any (λ c. c.period_start == period.start) cycles)

  -- An account that has not been billed for the period.
  unfoldable pub bill_account :
      ℕ → CyclePeriod → RateOf Num → String → Action Num (CycleOutcome Num)
  bill_account now period rate_of user_id = do
    plan ← reads (get_user_plan numbers user_id)
    intervals ← reads (list_intervals user_id)
    let cost = compute_cycle_cost numbers intervals plan period (some rate_of)
    collected ←
        if less (literal numbers 0) cost
        then collect now period user_id plan intervals cost
        else pure (record { status = paid; suspended = [] })
    cycle_id ← fresh_id deps
    writes (
        create_cycle cycle_id now (record {
          user_id = user_id;
          period_start = period.start;
          period_end = period.end;
          total_cost = cost;
          currency = plan.currency;
          status = collected.status;
        }))
    pure (record {
      user_id = user_id;
      cost = cost;
      status = collected.status;
      suspended_deployment_ids = collected.suspended;
    })

  -- The loop of `runBillingCycle`.
  unfoldable pub bill_each :
      ℕ → CyclePeriod → RateOf Num → List String → Action Num (List (CycleOutcome Num))
  bill_each now period rate_of [] = pure []
  bill_each now period rate_of (user_id ∷ user_ids) = do
    billed ← already_billed period user_id
    let rest = bill_each now period rate_of user_ids
    if billed then rest else do
      outcome ← bill_account now period rate_of user_id
      outcomes ← rest
      pure (outcome ∷ outcomes)

  unfoldable pub run_billing_cycle : ℕ → CyclePeriod → Action Num (List (CycleOutcome Num))
  run_billing_cycle now period = do
    plans ← reads list_plans
    user_ids ← reads list_billable_user_ids
    bill_each now period (rates_of plans) user_ids
