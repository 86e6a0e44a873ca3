-- ===== src/Billing/Operation/Tests.antt =====
-- Tests and instances of the theorems about the billing operations.
use nexus_infra.Prelude.{ℕ, ◌≡◌, refl, arith, true, none, some, List, [], ◌∷◌, find}
use nexus_infra.Prelude.Assoc.{lookup, insert}
use nexus_infra.Billing.Number.Samples.{amounts}
use nexus_infra.Billing.Types.{CreditWallet, CreditLedgerEntry, topup, pending, confirmed}
use nexus_infra.Billing.Repository.{
  Repo, has_id, get_ledger_by_reference, transition_ledger_status, get_wallet, set_balance,
  update_first,
}
use nexus_infra.Billing.Wallet.{apply_top_up}
use nexus_infra.Billing.Pricing.{round_currency, default_plan}
use nexus_infra.Billing.Service.{Deps, World, ok, ◌>>=◌}
use nexus_infra.Billing.Service.TopUps.{handle_payment_confirmed, same_amount}
use nexus_infra.Billing.Service.TopUps.Credit.{Effect, handle_payment_confirmed-Effect}
use nexus_infra.Billing.Operation.{Operation, server_started, payment_failed, expire_top_ups, run}
use nexus_infra.Billing.Operation.Runtime.{run-OneOpen}
use nexus_infra.Billing.Repository.Intervals.{OneOpen, open_count}
use nexus_infra.Billing.Service.Servers.{no_limits, handle_server_started, deployment_for}
use nexus_infra.Billing.Service.Servers.Again.{handle_server_started-again}
use nexus_infra.Billing.Types.{ServerBillingRecord}
use nexus_infra.Billing.Repository.{get_deployment, get_open_interval, get_user_plan, open_interval}
use nexus_infra.Billing.Operation.Payments.{final_entry_kept, credited_at_most_once}

abbrev outside : Deps ℕ
outside = record {
  random_uuid = λ n. "id";
  broker = λ n. true;
  to_iso_string = λ t. "an instant";
  period_label = λ t. "a month";
  billing_wallet_id = "billing";
  low_credit_hours = 480000;
}

abbrev waiting : CreditLedgerEntry ℕ
waiting = record {
  id = "e1";
  user_id = "ada";
  kind = topup;
  amount = 250000;
  currency = "EUR";
  reference = "topup-1";
  status = pending;
  description = "NexusInfra credit top-up";
  failure_reason = none;
  created_at = 5;
}

abbrev credited_entry : CreditLedgerEntry ℕ
credited_entry = record waiting { status = confirmed }

abbrev full_wallet : CreditWallet ℕ
full_wallet = record { user_id = "ada"; balance = 250000; currency = "EUR" }

abbrev empty_repo : Repo ℕ
empty_repo = record {
  plans = [];
  user_plans = [];
  deployments = [];
  intervals = [];
  wallets = [];
  wallet_emails = [];
  low_credit_warnings = [];
  ledger = waiting ∷ [];
  cycles = [];
}

abbrev before : World ℕ
before = record { repo = empty_repo; drawn = 0; attempts = [] }

abbrev after : World ℕ
after = record before {
  repo = record empty_repo { ledger = credited_entry ∷ []; wallets = ("ada", full_wallet) ∷ [] };
}

confirms :
    handle_payment_confirmed amounts outside "topup-1" (some 250000) before
    ≡ (ok (some full_wallet), after)
unfolding handle_payment_confirmed get_ledger_by_reference same_amount ◌>>=◌
    transition_ledger_status set_balance get_wallet apply_top_up insert lookup round_currency
    default_plan update_first
confirms = refl

abbrev history : List (Operation ℕ)
history =
    server_started 10 "d1"
    ∷ payment_failed "topup-1" (some "too late")
    ∷ expire_top_ups 4000000 1800000
    ∷ []

credited_at_most_once_example :
    handle_payment_confirmed amounts outside "topup-1" none (run amounts outside history after)
    ≡ (ok none, run amounts outside history after)
credited_at_most_once_example =
    credited_at_most_once amounts outside "topup-1" (some 250000) before after full_wallet history
      none confirms

final_entry_kept_example :
    find (has_id "e1") (run amounts outside history after).repo.ledger ≡ some credited_entry
final_entry_kept_example =
    final_entry_kept amounts outside history after "e1" credited_entry refl refl

handle_payment_confirmed-Effect_example :
    Effect amounts outside "topup-1" before after (some full_wallet)
handle_payment_confirmed-Effect_example =
    handle_payment_confirmed-Effect amounts outside "topup-1" (some 250000) before after
      (some full_wallet) confirms

abbrev owned : World ℕ
owned = record before {
  repo = record empty_repo {
    deployments =
        ("d1", record { deployment_id = "d1"; user_id = "ada"; limits = no_limits ℕ }) ∷ [];
  };
}

nothing_open : OneOpen owned.repo
unfolding open_count
nothing_open = record { at_most = λ d. omega arith }

run-OneOpen_example :
    OneOpen (run amounts outside (server_started 10 "d1" ∷ server_started 20 "d1" ∷ []) owned).repo
run-OneOpen_example =
    run-OneOpen amounts outside (server_started 10 "d1" ∷ server_started 20 "d1" ∷ []) owned
      nothing_open

abbrev first_run : ServerBillingRecord ℕ
first_run = record {
  id = "id";
  user_id = "ada";
  deployment_id = "d1";
  plan_id = "standard";
  limits = no_limits ℕ;
  started_at = 10;
  stopped_at = none;
  created_at = 10;
}

abbrev started_once : World ℕ
started_once = record owned { repo = record owned.repo { intervals = first_run ∷ [] }; drawn = 1 }

starts : handle_server_started amounts outside 10 "d1" owned ≡ (ok (some first_run), started_once)
unfolding handle_server_started ◌>>=◌ deployment_for get_deployment lookup get_open_interval
    get_user_plan open_interval default_plan
starts = refl

handle_server_started-again_example :
    handle_server_started amounts outside 20 "d1" started_once ≡ (ok (some first_run), started_once)
handle_server_started-again_example =
    handle_server_started-again amounts outside 10 20 "d1" first_run owned started_once starts
