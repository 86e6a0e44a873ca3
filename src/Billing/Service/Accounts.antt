-- ===== src/Billing/Service/Accounts.antt =====
-- The provider's view: `listAccounts`, `adjustCredit` and `quote` of
-- services/billing-bridge/src/service.ts.
pub mod Steps
use nexus_infra.Prelude.{
  ℕ, String, Bool, not, ◌&&◌, ◌||◌, some, none, List, [], ◌∷◌, length, str_eq, if◌then◌else◌,
  concat,
}
use nexus_infra.Prelude.Text.{trim, slice_to}
use nexus_infra.Billing.Number.{Numbers, literal, abs}
use nexus_infra.Billing.Types.{
  ResourceLimits, CreditWallet, CreditLedgerEntry, CreateLedgerInput, topup, charge, confirmed,
}
use nexus_infra.Billing.Pricing.{round_currency, resource_factor}
use nexus_infra.Billing.Calendar.{current_period}
use nexus_infra.Billing.Cost.{RateOf, rates_of}
use nexus_infra.Billing.Standing.{usage_in, compute_standing}
use nexus_infra.Billing.Repository.{
  get_user_plan, list_intervals, list_plans, list_cycles, list_billable_user_ids, get_wallet,
  set_balance, new_entry, create_ledger_entry,
}
use nexus_infra.Billing.Service.{
  Deps, Action, ◌>>=◌, ◌>>◌, pure, raise_if, reads, writes, updates, fresh_id, amount_zero,
  amount_over_max, reason_missing, under_one_cent,
}
use nexus_infra.Billing.Service.Checks.{running_deployments}

abbrev pub max_adjustment : ℕ
max_adjustment = 10000

pub record AccountSummary (Num : Type 0) : Type 0 where
  pub user_id : String
  pub plan_id : String
  pub plan_name : String
  pub balance : Num
  pub available : Num
  pub can_run : Bool
  pub currency : String
  pub hours : Num
  pub cost : Num
  pub running_servers : ℕ

pub record Adjustment (Num : Type 0) : Type 0 where
  pub wallet : CreditWallet Num
  pub entry : CreditLedgerEntry Num

module _ (numbers : Numbers) (deps : Deps (numbers.Num)) where
  open numbers use {Num, neg, plus, less, less_eq, is_finite}

  unfoldable pub account_summary : ℕ → RateOf Num → String → Action Num (AccountSummary Num)
  account_summary now rate_of user_id = do
    plan ← reads (get_user_plan numbers user_id)
    intervals ← reads (list_intervals user_id)
    wallet ← updates (get_wallet numbers user_id)
    cycles ← reads (list_cycles user_id)
    let standing = compute_standing numbers (record {
      balance = wallet.balance;
      currency = wallet.currency;
      intervals = intervals;
      cycles = cycles;
      plan = plan;
      now = now;
      rate_of = some rate_of;
      low_credit_hours = none;
    })
    let usage = usage_in numbers intervals plan (current_period now) (some rate_of)
    pure (record {
      user_id = user_id;
      plan_id = plan.id;
      plan_name = plan.name;
      balance = wallet.balance;
      available = standing.available;
      can_run = standing.can_run;
      currency = wallet.currency;
      hours = usage.hours;
      cost = usage.cost;
      running_servers = length (running_deployments intervals);
    })

  summaries : ℕ → RateOf Num → List String → Action Num (List (AccountSummary Num))
  summaries now rate_of [] = pure []
  summaries now rate_of (user_id ∷ user_ids) = do
    summary ← account_summary now rate_of user_id
    rest ← summaries now rate_of user_ids
    pure (summary ∷ rest)

  unfoldable pub list_accounts : ℕ → Action Num (List (AccountSummary Num))
  unfolding summaries
  list_accounts now = do
    plans ← reads list_plans
    user_ids ← reads list_billable_user_ids
    summaries now (rates_of plans) user_ids

  -- `amount === 0`
  abbrev is_zero : Num → Bool
  is_zero n = less_eq n (literal numbers 0) && less_eq (literal numbers 0) n

  -- Who adjusted the credit and why, as the customer reads it.
  adjustment_text : Bool → String → String → String
  adjustment_text added by why = concat (
      (if added then "Credit added" else "Credit removed")
      ∷ " by "
      ∷ (if str_eq by "" then "an administrator" else by)
      ∷ ": "
      ∷ why
      ∷ [])

  -- The movement that passed every check.
  unfoldable pub apply_adjustment : ℕ → String → Bool → Num → String → Action Num (Adjustment Num)
  apply_adjustment now user_id added rounded description = do
    wallet ← updates (get_wallet numbers user_id)
    reference_id ← fresh_id deps
    entry_id ← fresh_id deps
    let input : CreateLedgerInput Num = record {
      user_id = user_id;
      kind = if added then topup else charge;
      amount = rounded;
      currency = wallet.currency;
      reference = concat ("adjust-" ∷ reference_id ∷ []);
      status = confirmed;
      description = description;
    }
    writes (create_ledger_entry entry_id now input)
    updated ← updates (
        set_balance numbers user_id
          (round_currency numbers (plus wallet.balance (if added then rounded else neg rounded))))
    pure (record { wallet = updated; entry = new_entry entry_id now input })

  -- The amount is a number; that it may be another value at run time is not modelled.
  unfoldable pub adjust_credit : ℕ → String → Num → String → String → Action Num (Adjustment Num)
  unfolding adjustment_text
  adjust_credit now user_id amount reason by = do
    raise_if (not (is_finite amount) || is_zero amount) amount_zero
    raise_if (less (literal numbers max_adjustment) (abs numbers amount)) amount_over_max
    let why = slice_to 200 (trim reason)
    raise_if (str_eq why "") reason_missing
    let rounded = round_currency numbers (abs numbers amount)
    raise_if (is_zero rounded) under_one_cent
    let added = less (literal numbers 0) amount
    apply_adjustment now user_id added rounded (adjustment_text added by why)

  unfoldable pub quote : ResourceLimits Num → Num
  quote limits = resource_factor numbers limits
