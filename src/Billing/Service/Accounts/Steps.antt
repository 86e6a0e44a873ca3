-- ===== src/Billing/Service/Accounts/Steps.antt =====
-- The provider's operations take the store along every relation that its methods keep to.
use nexus_infra.Prelude.{ℕ, String, Bool, List, [], ◌∷◌}
use nexus_infra.Billing.Number.{Numbers}
use nexus_infra.Billing.Cost.{RateOf}
use nexus_infra.Billing.Repository.{Repo}
use nexus_infra.Billing.Service.{Deps}
use nexus_infra.Billing.Service.Along.{Along, Allows, along_rules, bind-Along, pure-Along}
use nexus_infra.Billing.Service.Accounts.{
  account_summary, summaries, list_accounts, apply_adjustment, adjust_credit,
}

module _ (numbers : Numbers) (deps : Deps (numbers.Num))
    {R : Repo (numbers.Num) → Repo (numbers.Num) → Type 0} (allows : Allows numbers R) where
  open numbers use {Num}
  open allows use {wallet_read, balance_set, entry_created}

  account_summary-Along :
      (now : ℕ) (rate_of : RateOf Num) (user_id : String)
      → Along R (account_summary numbers deps now rate_of user_id)
  unfolding account_summary
  account_summary-Along now rate_of user_id = search (along_rules, allows, wallet_read) depth 8

  summaries-Along :
      (now : ℕ) (rate_of : RateOf Num) (user_ids : List String)
      → Along R (summaries numbers deps now rate_of user_ids)
  unfolding summaries
  summaries-Along now rate_of [] = search (along_rules, allows)
  summaries-Along now rate_of (user_id ∷ user_ids) =
      bind-Along numbers allows _ _ (account_summary-Along now rate_of user_id) (λ summary.
        bind-Along numbers allows _ _ (summaries-Along now rate_of user_ids)
          (λ rest. pure-Along numbers allows _))

  pub list_accounts-Along : (now : ℕ) → Along R (list_accounts numbers deps now)
  unfolding list_accounts
  list_accounts-Along now = search (along_rules, allows, summaries-Along)

  apply_adjustment-Along :
      (now : ℕ) (user_id : String) (added : Bool) (rounded : Num) (description : String)
      → Along R (apply_adjustment numbers deps now user_id added rounded description)
  unfolding apply_adjustment
  apply_adjustment-Along now user_id added rounded description =
      search (along_rules, allows, wallet_read, entry_created, balance_set) depth 10

  pub adjust_credit-Along :
      (now : ℕ) (user_id : String) (amount : Num) (reason by : String)
      → Along R (adjust_credit numbers deps now user_id amount reason by)
  unfolding adjust_credit
  adjust_credit-Along now user_id amount reason by =
      search (along_rules, allows, apply_adjustment-Along) depth 10
