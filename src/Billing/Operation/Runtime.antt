-- ===== src/Billing/Operation/Runtime.antt =====
-- What no history of operations can do to the runtime intervals
-- (services/billing-bridge/src/service.ts).
use nexus_infra.Prelude.{ℕ, String, ◌≡◌, refl, Option, none, some, List, arith}
use nexus_infra.Billing.Number.{Numbers}
use nexus_infra.Billing.Repository.{
  Repo, get_wallet, set_balance, set_wallet_email, set_low_credit_warned_at, create_ledger_entry,
  transition_ledger_status, save_deployment, create_cycle, save_plan, set_user_plan,
}
use nexus_infra.Billing.Repository.Intervals.{
  OneOpen, KeepsOne, KeepsOne-of_intervals, KeepsOne-trans, close_interval-OneOpen,
}
use nexus_infra.Billing.Service.{Deps, World}
use nexus_infra.Billing.Service.Along.{Allows}
use nexus_infra.Billing.Service.Servers.Running.{handle_server_started-KeepsOne}
use nexus_infra.Billing.Service.Plans.Running.{change_plan-KeepsOne}
use nexus_infra.Billing.Operation.{Operation, run, run-along}

module _ (numbers : Numbers) where
  open numbers use {Num}

  intervals-get_wallet :
      (user_id : String) (r : Repo Num) → (get_wallet numbers user_id r).1.intervals ≡ r.intervals
  unfolding get_wallet
  intervals-get_wallet user_id r = ground arith

  intervals-set_balance :
      (user_id : String) (balance : Num) (r : Repo Num)
      → (set_balance numbers user_id balance r).1.intervals ≡ r.intervals
  unfolding set_balance
  intervals-set_balance user_id balance r = intervals-get_wallet user_id r

  intervals-set_wallet_email :
      (user_id email : String) (r : Repo Num)
      → (set_wallet_email numbers user_id email r).intervals ≡ r.intervals
  unfolding set_wallet_email
  intervals-set_wallet_email user_id email r = intervals-get_wallet user_id r

  intervals-set_low_credit_warned_at :
      (user_id : String) (at : Option ℕ) (r : Repo Num)
      → (set_low_credit_warned_at numbers user_id at r).intervals ≡ r.intervals
  unfolding set_low_credit_warned_at
  intervals-set_low_credit_warned_at user_id none r = intervals-get_wallet user_id r
  intervals-set_low_credit_warned_at user_id (some at) r = intervals-get_wallet user_id r

  one_allows : Allows numbers KeepsOne
  unfolding create_ledger_entry transition_ledger_status save_deployment create_cycle save_plan
      set_user_plan
  one_allows = record {
    stay = λ r. KeepsOne-of_intervals refl;
    chain = KeepsOne-trans;
    wallet_read = λ u r. KeepsOne-of_intervals (intervals-get_wallet u r);
    balance_set = λ u b r. KeepsOne-of_intervals (intervals-set_balance u b r);
    email_set = λ u e r. KeepsOne-of_intervals (intervals-set_wallet_email u e r);
    warned_set = λ u at r. KeepsOne-of_intervals (intervals-set_low_credit_warned_at u at r);
    entry_created = λ id now input r. KeepsOne-of_intervals refl;
    entry_moved = λ id from to reason r c f. KeepsOne-of_intervals (ground arith);
    deployment_saved = λ d r. KeepsOne-of_intervals refl;
    interval_closed = λ d at r. record { keeps = close_interval-OneOpen d at r };
    cycle_created = λ id now input r. KeepsOne-of_intervals refl;
    plan_saved = λ plan r. KeepsOne-of_intervals refl;
    user_plan_set = λ u p r. KeepsOne-of_intervals refl;
  }

module _ (numbers : Numbers) (deps : Deps (numbers.Num)) where
  open numbers use {Num}

  -- If no deployment has two open runtime intervals, none has two after any history of operations:
  -- starts reported twice and changes of plan included.
  pub run-OneOpen :
      (os : List (Operation Num)) (w : World Num)
      → OneOpen w.repo
      → OneOpen (run numbers deps os w).repo
  run-OneOpen os w =
      (run-along numbers deps (one_allows numbers)
        (handle_server_started-KeepsOne numbers deps (one_allows numbers))
        (change_plan-KeepsOne numbers deps (one_allows numbers)) os w).keeps
