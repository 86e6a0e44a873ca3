-- ===== src/Billing/Repository.antt =====
-- The in-memory store of billing: `InMemoryRepository` of services/billing-bridge/src/repository.ts.
-- A method that changes the store returns the new one; random ids and the clock are arguments.
pub mod Intervals
pub mod Ledger
pub mod Wallets
use nexus_infra.Prelude.{
  ℕ, String, Bool, true, false, ◌&&◌, Option, none, some, List, [], ◌∷◌, ◌++◌, map, ltb, str_eq,
  if◌then◌else◌, or_else, is_none, filter, find, find_last, any,
}
use nexus_infra.Prelude.Assoc.{Assoc, lookup, insert, erase, keys, values}
use nexus_infra.Billing.Number.{Numbers, literal}
use nexus_infra.Billing.Types.{
  BillingPlan, BilledDeployment, ServerBillingRecord, CreditWallet, CreditLedgerEntry,
  BillingCycleRecord, LedgerStatus, pending, OpenIntervalInput, CreateLedgerInput, CreateCycleInput,
  is_topup, same_status,
}
use nexus_infra.Billing.Pricing.{default_plan}

pub record Repo (Num : Type 0) : Type 0 where
  pub plans : Assoc (BillingPlan Num)
  pub user_plans : Assoc String
  pub deployments : Assoc (BilledDeployment Num)
  pub intervals : List (ServerBillingRecord Num)
  pub wallets : Assoc (CreditWallet Num)
  pub wallet_emails : Assoc String
  pub low_credit_warnings : Assoc ℕ
  pub ledger : List (CreditLedgerEntry Num)
  pub cycles : List (BillingCycleRecord Num)

-- What mutating the object that `find_last` returns does to the array.
unfoldable pub update_last {ℓ} : {A : Type ℓ} → (A → Bool) → (A → A) → List A → List A
update_last p f [] = []
update_last p f (x ∷ xs) =
    let rest = update_last p f xs in if any p xs then x ∷ rest else if p x then f x ∷ xs else x ∷ xs

-- What mutating the object that `find` returns does to the array.
unfoldable pub update_first {ℓ} : {A : Type ℓ} → (A → Bool) → (A → A) → List A → List A
update_first p f [] = []
update_first p f (x ∷ xs) = if p x then f x ∷ xs else x ∷ update_first p f xs

-- `[...new Set(xs)]`: the first of each.
unfoldable pub unique_from : List String → List String → List String
unique_from seen [] = []
unique_from seen (x ∷ xs) =
    if any (λ y. str_eq y x) seen then unique_from seen xs else x ∷ unique_from (x ∷ seen) xs

abbrev pub unique : List String → List String
unique = unique_from []

module _ {Num : Type 0} where
  abbrev pub is_open : ServerBillingRecord Num → Bool
  is_open i = is_none i.stopped_at

  abbrev pub open_for : String → ServerBillingRecord Num → Bool
  open_for deployment_id i = str_eq i.deployment_id deployment_id && is_open i

  unfoldable pub list_plans : Repo Num → List (BillingPlan Num)
  list_plans r = values r.plans

  unfoldable pub get_plan : String → Repo Num → Option (BillingPlan Num)
  get_plan id r = lookup id r.plans

  unfoldable pub save_plan : BillingPlan Num → Repo Num → Repo Num
  save_plan plan r = record r { plans = insert plan.id plan r.plans }

  unfoldable pub set_user_plan : String → String → Repo Num → Repo Num
  set_user_plan user_id plan_id r = record r { user_plans = insert user_id plan_id r.user_plans }

  unfoldable pub save_deployment : BilledDeployment Num → Repo Num → Repo Num
  save_deployment d r = record r { deployments = insert d.deployment_id d r.deployments }

  unfoldable pub get_deployment : String → Repo Num → Option (BilledDeployment Num)
  get_deployment deployment_id r = lookup deployment_id r.deployments

  unfoldable pub get_open_interval : String → Repo Num → Option (ServerBillingRecord Num)
  get_open_interval deployment_id r = find_last (open_for deployment_id) r.intervals

  unfoldable pub get_last_interval : String → Repo Num → Option (ServerBillingRecord Num)
  get_last_interval deployment_id r =
      find_last (λ i. str_eq i.deployment_id deployment_id) r.intervals

  abbrev pub new_interval : String → ℕ → OpenIntervalInput Num → ServerBillingRecord Num
  new_interval id now input = record {
    id = id;
    user_id = input.user_id;
    deployment_id = input.deployment_id;
    plan_id = input.plan_id;
    limits = input.limits;
    started_at = input.started_at;
    stopped_at = none;
    created_at = now;
  }

  unfoldable pub open_interval : String → ℕ → OpenIntervalInput Num → Repo Num → Repo Num
  open_interval id now input r = record r {
    intervals = r.intervals ++ new_interval id now input ∷ [];
  }

  abbrev pub stop_at : ℕ → ServerBillingRecord Num → ServerBillingRecord Num
  stop_at at i = record i { stopped_at = some at }

  -- The interval that `close_interval` returns: the most recent open one, now stopped.
  unfoldable pub closing : String → ℕ → Repo Num → Option (ServerBillingRecord Num)
  closing deployment_id at r = elim (find_last (open_for deployment_id) r.intervals) [
    | none ↦ none
    | some i ↦ some (stop_at at i)
  ]

  unfoldable pub close_interval : String → ℕ → Repo Num → Repo Num
  close_interval deployment_id at r = record r {
    intervals = update_last (open_for deployment_id) (stop_at at) r.intervals;
  }

  unfoldable pub list_intervals : String → Repo Num → List (ServerBillingRecord Num)
  list_intervals user_id r = filter (λ i. str_eq i.user_id user_id) r.intervals

  unfoldable pub get_wallet_email : String → Repo Num → Option String
  get_wallet_email user_id r = lookup user_id r.wallet_emails

  unfoldable pub get_low_credit_warned_at : String → Repo Num → Option ℕ
  get_low_credit_warned_at user_id r = lookup user_id r.low_credit_warnings

  abbrev pub new_entry : String → ℕ → CreateLedgerInput Num → CreditLedgerEntry Num
  new_entry id now input = record {
    id = id;
    user_id = input.user_id;
    kind = input.kind;
    amount = input.amount;
    currency = input.currency;
    reference = input.reference;
    status = input.status;
    description = input.description;
    failure_reason = none;
    created_at = now;
  }

  unfoldable pub create_ledger_entry : String → ℕ → CreateLedgerInput Num → Repo Num → Repo Num
  create_ledger_entry id now input r = record r { ledger = r.ledger ++ new_entry id now input ∷ [] }

  unfoldable pub get_ledger_by_reference : String → Repo Num → Option (CreditLedgerEntry Num)
  get_ledger_by_reference reference r = find (λ e. str_eq e.reference reference) r.ledger

  abbrev pub has_id : String → CreditLedgerEntry Num → Bool
  has_id id e = str_eq e.id id

  unfoldable pub update_ledger_status : String → LedgerStatus → Repo Num → Repo Num
  update_ledger_status id status r = record r {
    ledger = update_first (has_id id) (λ e. record e { status = status }) r.ledger;
  }

  -- `if (failureReason !== undefined) entry.failureReason = failureReason`
  abbrev pub moved : LedgerStatus → Option String → CreditLedgerEntry Num → CreditLedgerEntry Num
  moved to none e = record e { status = to }
  moved to (some reason) e = record e { status = to; failure_reason = some reason }

  abbrev pub may_move : List LedgerStatus → Option (CreditLedgerEntry Num) → Bool
  may_move from none = false
  may_move from (some e) = any (λ s. same_status s e.status) from

  unfoldable pub transition_ledger_status :
      String → List LedgerStatus → LedgerStatus → Option String → Repo Num → Bool × Repo Num
  transition_ledger_status id from to reason r =
      if may_move from (find (has_id id) r.ledger)
      then (true, record r { ledger = update_first (has_id id) (moved to reason) r.ledger })
      else (false, r)

  unfoldable pub list_pending_top_ups : ℕ → Repo Num → List (CreditLedgerEntry Num)
  list_pending_top_ups created_before r =
      filter
        (λ e. is_topup e.kind && same_status e.status pending && ltb e.created_at created_before)
        r.ledger

  unfoldable pub list_ledger : String → Repo Num → List (CreditLedgerEntry Num)
  list_ledger user_id r = filter (λ e. str_eq e.user_id user_id) r.ledger

  unfoldable pub create_cycle : String → ℕ → CreateCycleInput Num → Repo Num → Repo Num
  create_cycle id now input r = record r {
    cycles =
        r.cycles
        ++ record {
          id = id;
          user_id = input.user_id;
          period_start = input.period_start;
          period_end = input.period_end;
          total_cost = input.total_cost;
          currency = input.currency;
          status = input.status;
          created_at = now;
        }
          ∷ [];
  }

  unfoldable pub list_cycles : String → Repo Num → List (BillingCycleRecord Num)
  list_cycles user_id r = filter (λ c. str_eq c.user_id user_id) r.cycles

  unfoldable pub list_billable_user_ids : Repo Num → List String
  unfolding unique_from
  list_billable_user_ids r = unique (
      map (λ i. i.user_id) r.intervals
      ++ (keys r.wallets
          ++ (keys r.user_plans
              ++ map (λ (d : BilledDeployment Num). d.user_id) (values r.deployments))))

module _ (numbers : Numbers) where
  open numbers use {Num}

  unfoldable pub get_user_plan : String → Repo Num → BillingPlan Num
  get_user_plan user_id r =
      let standard = or_else (lookup (default_plan numbers).id r.plans) (default_plan numbers) in
      elim (lookup user_id r.user_plans) [
        | none ↦ standard
        | some plan_id ↦
            if str_eq plan_id "" then standard else or_else (lookup plan_id r.plans) standard
      ]

  abbrev pub empty_wallet : String → CreditWallet Num
  empty_wallet user_id = record {
    user_id = user_id;
    balance = literal numbers 0;
    currency = (default_plan numbers).currency;
  }

  -- A read creates the wallet when there is none.
  unfoldable pub get_wallet : String → Repo Num → CreditWallet Num × Repo Num
  get_wallet user_id r = elim (lookup user_id r.wallets) [
    | some wallet ↦ (wallet, r)
    | none ↦ (
      empty_wallet user_id,
      record r { wallets = insert user_id (empty_wallet user_id) r.wallets },
    )
  ]

  unfoldable pub set_balance : String → Num → Repo Num → CreditWallet Num × Repo Num
  set_balance user_id balance r =
      let (wallet, r') = get_wallet user_id r in
      let updated = record wallet { balance = balance } in
      (updated, record r' { wallets = insert user_id updated r'.wallets })

  unfoldable pub set_wallet_email : String → String → Repo Num → Repo Num
  set_wallet_email user_id email r =
      let r' = (get_wallet user_id r).1 in
      record r' { wallet_emails = insert user_id email r'.wallet_emails }

  unfoldable pub set_low_credit_warned_at : String → Option ℕ → Repo Num → Repo Num
  set_low_credit_warned_at user_id at r =
      let r' = (get_wallet user_id r).1 in
      elim at [
        | some t ↦ record r' { low_credit_warnings = insert user_id t r'.low_credit_warnings }
        | none ↦ record r' { low_credit_warnings = erase user_id r'.low_credit_warnings }
      ]
