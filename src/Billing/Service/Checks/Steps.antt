-- ===== src/Billing/Service/Checks/Steps.antt =====
-- The checks take the store along every relation that its methods keep to.
use nexus_infra.Prelude.{ℕ, String, Option, none, some, List, [], ◌∷◌}
use nexus_infra.Billing.Number.{Numbers}
use nexus_infra.Billing.Standing.{Standing, LowCreditStep, warn, clear, nothing}
use nexus_infra.Billing.Repository.{Repo}
use nexus_infra.Billing.Service.{Deps}
use nexus_infra.Billing.Service.Along.{Along, Allows, along_rules, bind-Along, pure-Along}
use nexus_infra.Billing.Service.Checks.{
  get_usage, get_standing, send_warning, act_on, warn_account, warn_each, warn_low_credit,
  settle_account, settle_each, settle,
}

module _ (numbers : Numbers) (deps : Deps (numbers.Num))
    {R : Repo (numbers.Num) → Repo (numbers.Num) → Type 0} (allows : Allows numbers R) where
  open numbers use {Num}
  open allows use {wallet_read, warned_set}

  pub get_usage-Along : (now : ℕ) (user_id : String) → Along R (get_usage numbers deps now user_id)
  unfolding get_usage
  get_usage-Along now user_id = search (along_rules, allows) depth 8

  pub get_standing-Along :
      (now : ℕ) (user_id : String) → Along R (get_standing numbers deps now user_id)
  unfolding get_standing
  get_standing-Along now user_id = search (along_rules, allows, wallet_read) depth 8

  send_warning-Along :
      (now : ℕ) (user_id : String) (standing : Standing Num) (hours_left : Option Num)
      → Along R (send_warning numbers deps now user_id standing hours_left)
  unfolding send_warning
  send_warning-Along now user_id standing none = search (along_rules, allows)
  send_warning-Along now user_id standing (some hours_left) =
      search (along_rules, allows, warned_set)

  act_on-Along :
      (now : ℕ) (user_id : String) (standing : Standing Num) (step : LowCreditStep)
      → Along R (act_on numbers deps now user_id standing step)
  unfolding act_on
  act_on-Along now user_id standing warn =
      send_warning-Along now user_id standing standing.hours_left
  act_on-Along now user_id standing clear = search (along_rules, allows, warned_set)
  act_on-Along now user_id standing nothing = search (along_rules, allows)

  pub warn_account-Along :
      (now : ℕ) (user_id : String) → Along R (warn_account numbers deps now user_id)
  unfolding warn_account
  warn_account-Along now user_id =
      search (along_rules, allows, get_standing-Along, act_on-Along) depth 8

  warn_each-Along :
      (now : ℕ) (user_ids : List String) → Along R (warn_each numbers deps now user_ids)
  unfolding warn_each
  warn_each-Along now [] = search (along_rules, allows)
  warn_each-Along now (user_id ∷ user_ids) =
      bind-Along numbers allows _ _ (warn_account-Along now user_id) (λ warned.
        bind-Along numbers allows _ _ (warn_each-Along now user_ids)
          (λ rest. pure-Along numbers allows _))

  pub warn_low_credit-Along : (now : ℕ) → Along R (warn_low_credit numbers deps now)
  unfolding warn_low_credit
  warn_low_credit-Along now = search (along_rules, allows, warn_each-Along)

  pub settle_account-Along :
      (now : ℕ) (user_id : String) → Along R (settle_account numbers deps now user_id)
  unfolding settle_account
  settle_account-Along now user_id = search (along_rules, allows, get_standing-Along) depth 8

  settle_each-Along :
      (now : ℕ) (user_ids : List String) → Along R (settle_each numbers deps now user_ids)
  unfolding settle_each
  settle_each-Along now [] = search (along_rules, allows)
  settle_each-Along now (user_id ∷ user_ids) =
      bind-Along numbers allows _ _ (settle_account-Along now user_id) (λ stopped.
        bind-Along numbers allows _ _ (settle_each-Along now user_ids)
          (λ rest. pure-Along numbers allows _))

  pub settle-Along : (now : ℕ) → Along R (settle numbers deps now)
  unfolding settle
  settle-Along now = search (along_rules, allows, settle_each-Along)
