-- ===== src/Billing/Operation/Payments.antt =====
-- What no history of operations can do to a payment (services/billing-bridge/src/service.ts).
use nexus_infra.Prelude.{String, ◌≡◌, refl, ap, true, Option, none, some, List, [], ◌∷◌, find}
use nexus_infra.Billing.Number.{Numbers}
use nexus_infra.Billing.Types.{CreditWallet, CreditLedgerEntry}
use nexus_infra.Billing.Repository.{
  has_id, save_deployment, open_interval, close_interval, create_cycle, save_plan, set_user_plan,
}
use nexus_infra.Billing.Repository.Ledger.{
  KeepsFinal, KeepsFinal-of_eq, KeepsFinal-trans, create_ledger_entry-KeepsFinal,
  transition-KeepsFinal, KeepsReferences, KeepsReferences-of_eq, KeepsReferences-trans,
  create_ledger_entry-KeepsReferences, transition-KeepsReferences, is_final,
}
use nexus_infra.Billing.Repository.Wallets.{
  ledger-get_wallet, ledger-set_balance, ledger-set_wallet_email, ledger-set_low_credit_warned_at,
}
use nexus_infra.Billing.Service.{Deps, World, ok}
use nexus_infra.Billing.Service.Along.{Allows}
use nexus_infra.Billing.Service.TopUps.{handle_payment_confirmed}
use nexus_infra.Billing.Service.TopUps.Once.{confirm_again, IsConfirmed-once}
use nexus_infra.Billing.Service.Servers.Steps.{handle_server_started-Along}
use nexus_infra.Billing.Service.Plans.Steps.{change_plan-Along}
use nexus_infra.Billing.Operation.{Operation, payment_confirmed, perform, run, run-along}

module _ (numbers : Numbers) (deps : Deps (numbers.Num)) where
  open numbers use {Num}

  final_allows : Allows numbers KeepsFinal
  unfolding save_deployment close_interval create_cycle save_plan set_user_plan
  final_allows = record {
    stay = λ r. KeepsFinal-of_eq refl;
    chain = KeepsFinal-trans;
    wallet_read = λ u r. KeepsFinal-of_eq (ledger-get_wallet numbers u r);
    balance_set = λ u b r. KeepsFinal-of_eq (ledger-set_balance numbers u b r);
    email_set = λ u e r. KeepsFinal-of_eq (ledger-set_wallet_email numbers u e r);
    warned_set = λ u at r. KeepsFinal-of_eq (ledger-set_low_credit_warned_at numbers u at r);
    entry_created = create_ledger_entry-KeepsFinal;
    entry_moved = transition-KeepsFinal;
    deployment_saved = λ d r. KeepsFinal-of_eq refl;
    interval_closed = λ d at r. KeepsFinal-of_eq refl;
    cycle_created = λ id now input r. KeepsFinal-of_eq refl;
    plan_saved = λ plan r. KeepsFinal-of_eq refl;
    user_plan_set = λ u p r. KeepsFinal-of_eq refl;
  }

  reference_allows : Allows numbers KeepsReferences
  unfolding save_deployment close_interval create_cycle save_plan set_user_plan
  reference_allows = record {
    stay = λ r. KeepsReferences-of_eq refl;
    chain = KeepsReferences-trans;
    wallet_read = λ u r. KeepsReferences-of_eq (ledger-get_wallet numbers u r);
    balance_set = λ u b r. KeepsReferences-of_eq (ledger-set_balance numbers u b r);
    email_set = λ u e r. KeepsReferences-of_eq (ledger-set_wallet_email numbers u e r);
    warned_set = λ u at r. KeepsReferences-of_eq (ledger-set_low_credit_warned_at numbers u at r);
    entry_created = create_ledger_entry-KeepsReferences;
    entry_moved = λ id from to reason r c f. transition-KeepsReferences id from to reason r;
    deployment_saved = λ d r. KeepsReferences-of_eq refl;
    interval_closed = λ d at r. KeepsReferences-of_eq refl;
    cycle_created = λ id now input r. KeepsReferences-of_eq refl;
    plan_saved = λ plan r. KeepsReferences-of_eq refl;
    user_plan_set = λ u p r. KeepsReferences-of_eq refl;
  }

  run-KeepsFinal :
      (os : List (Operation Num)) (w : World Num) → KeepsFinal w.repo (run numbers deps os w).repo
  unfolding open_interval
  run-KeepsFinal =
      run-along numbers deps final_allows
        (handle_server_started-Along numbers deps final_allows
          (λ id now input r. KeepsFinal-of_eq refl))
        (change_plan-Along numbers deps final_allows (λ id now input r. KeepsFinal-of_eq refl))

  run-KeepsReferences :
      (os : List (Operation Num)) (w : World Num)
      → KeepsReferences w.repo (run numbers deps os w).repo
  unfolding open_interval
  run-KeepsReferences =
      run-along numbers deps reference_allows
        (handle_server_started-Along numbers deps reference_allows
          (λ id now input r. KeepsReferences-of_eq refl))
        (change_plan-Along numbers deps reference_allows
          (λ id now input r. KeepsReferences-of_eq refl))

  -- Whatever the service does, a ledger entry that is confirmed or failed is later found under its
  -- id exactly as it was.
  pub final_entry_kept :
      (os : List (Operation Num)) (w : World Num) (id : String) (e : CreditLedgerEntry Num)
      → find (has_id id) w.repo.ledger ≡ some e
      → is_final e.status ≡ true
      → find (has_id id) (run numbers deps os w).repo.ledger ≡ some e
  final_entry_kept os w id e here final = (run-KeepsFinal os w).found id e here final

  -- Once a confirmation has credited a top-up, no later confirmation of the same reference credits
  -- anything or changes the store, for any amount and whatever operations ran in between.
  pub credited_at_most_once :
      (reference : String) (amount : Option Num) (w w1 : World Num) (wallet : CreditWallet Num)
      (os : List (Operation Num)) (again : Option Num)
      → handle_payment_confirmed numbers deps reference amount w ≡ (ok (some wallet), w1)
      → handle_payment_confirmed numbers deps reference again (run numbers deps os w1)
        ≡ (ok none, run numbers deps os w1)
  unfolding perform run
  credited_at_most_once reference amount w w1 wallet os again h =
      let (e, here, was) = IsConfirmed-once numbers deps reference amount w w1 wallet h in
      let same : perform numbers deps (payment_confirmed reference amount) w ≡ w1 =
        ap (λ p. p.1) h in
      let (e1, at_w1, s1) =
        (run-KeepsReferences (payment_confirmed reference amount ∷ []) w).found reference e here in
      let (e2, at_end, s2) = (run-KeepsReferences os w1).found reference e1 (rw same at at_w1) in
      confirm_again numbers deps reference e2 again (run numbers deps os w1) at_end (
        rw (s2.same_id, s1.same_id)
          (record {
            entry = was.entry;
            found = (run-KeepsFinal os w1).found e.id was.entry was.found (rw was.status);
            status = was.status;
          }))
