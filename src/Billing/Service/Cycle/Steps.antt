-- ===== src/Billing/Service/Cycle/Steps.antt =====
-- The monthly run takes the store along every relation that its methods keep to.
use nexus_infra.Prelude.{ℕ, String, Bool, true, false, List, [], ◌∷◌}
use nexus_infra.Billing.Number.{Numbers}
use nexus_infra.Billing.Types.{BillingPlan, ServerBillingRecord}
use nexus_infra.Billing.Calendar.{CyclePeriod}
use nexus_infra.Billing.Cost.{RateOf}
use nexus_infra.Billing.Repository.{Repo}
use nexus_infra.Billing.Service.{Deps}
use nexus_infra.Billing.Service.Along.{Along, Allows, along_rules, bind-Along, pure-Along, if-Along}
use nexus_infra.Billing.Service.Cycle.{
  suspend_short, collect, already_billed, bill_account, bill_each, run_billing_cycle,
}

module _ (numbers : Numbers) (deps : Deps (numbers.Num))
    {R : Repo (numbers.Num) → Repo (numbers.Num) → Type 0} (allows : Allows numbers R) where
  open numbers use {Num}
  open allows use {wallet_read, balance_set, entry_created, cycle_created}

  suspend_short-Along :
      (user_id : String) (running : List String) (covered : Bool)
      → Along R (suspend_short numbers deps user_id running covered)
  unfolding suspend_short
  suspend_short-Along user_id running true = search (along_rules, allows)
  suspend_short-Along user_id running false = search (along_rules, allows)

  pub collect-Along :
      (now : ℕ) (period : CyclePeriod) (user_id : String) (plan : BillingPlan Num)
      (intervals : List (ServerBillingRecord Num)) (cost : Num)
      → Along R (collect numbers deps now period user_id plan intervals cost)
  unfolding collect
  collect-Along now period user_id plan intervals cost =
      search (along_rules, allows, wallet_read, balance_set, entry_created, suspend_short-Along)
        depth 14

  already_billed-Along :
      (period : CyclePeriod) (user_id : String)
      → Along R (already_billed numbers deps period user_id)
  unfolding already_billed
  already_billed-Along period user_id = search (along_rules, allows)

  pub bill_account-Along :
      (now : ℕ) (period : CyclePeriod) (rate_of : RateOf Num) (user_id : String)
      → Along R (bill_account numbers deps now period rate_of user_id)
  unfolding bill_account
  bill_account-Along now period rate_of user_id =
      search (along_rules, allows, collect-Along, cycle_created) depth 10

  bill_each-Along :
      (now : ℕ) (period : CyclePeriod) (rate_of : RateOf Num) (user_ids : List String)
      → Along R (bill_each numbers deps now period rate_of user_ids)
  unfolding bill_each
  bill_each-Along now period rate_of [] = search (along_rules, allows)
  bill_each-Along now period rate_of (user_id ∷ user_ids) =
      let rest = bill_each-Along now period rate_of user_ids in
      bind-Along numbers allows _ _ (already_billed-Along period user_id) (λ billed.
        if-Along billed _ _ rest (
          bind-Along numbers allows _ _ (bill_account-Along now period rate_of user_id) (λ outcome.
            bind-Along numbers allows _ _ rest (λ outcomes. pure-Along numbers allows _))))

  pub run_billing_cycle-Along :
      (now : ℕ) (period : CyclePeriod) → Along R (run_billing_cycle numbers deps now period)
  unfolding run_billing_cycle
  run_billing_cycle-Along now period = search (along_rules, allows, bill_each-Along)
