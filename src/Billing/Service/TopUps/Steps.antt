-- ===== src/Billing/Service/TopUps/Steps.antt =====
-- The top-up operations take the store along every relation that its methods keep to.
use nexus_infra.Prelude.{ℕ, String, Bool, true, false, refl, Option, none, some, List, [], ◌∷◌}
use nexus_infra.Billing.Number.{Numbers}
use nexus_infra.Billing.Types.{CreditLedgerEntry, pending, expired}
use nexus_infra.Billing.Repository.{Repo}
use nexus_infra.Billing.Service.{Deps}
use nexus_infra.Billing.Service.Along.{
  Along, Allows, along_rules, bind-Along, updates-Along, pure-Along,
}
use nexus_infra.Billing.Service.TopUps.{
  request_top_up, remember_email, credit, confirm_entry, handle_payment_confirmed, fail_entry,
  handle_payment_failed, expire_each, expire_stale_top_ups,
}

module _ (numbers : Numbers) (deps : Deps (numbers.Num))
    {R : Repo (numbers.Num) → Repo (numbers.Num) → Type 0} (allows : Allows numbers R) where
  open numbers use {Num}
  open allows use {wallet_read, balance_set, email_set, entry_created, entry_moved}

  remember_email-Along :
      (user_id : String) (email : Option String)
      → Along R (remember_email numbers deps user_id email)
  unfolding remember_email
  remember_email-Along user_id none = search (along_rules, allows)
  remember_email-Along user_id (some email) = search (along_rules, allows, email_set)

  credit-Along :
      (entry : CreditLedgerEntry Num) (changed : Bool) → Along R (credit numbers deps entry changed)
  unfolding credit
  credit-Along entry false = search (along_rules, allows)
  credit-Along entry true = search (along_rules, allows, wallet_read, balance_set)

  confirm_entry-Along :
      (entry : Option (CreditLedgerEntry Num)) (amount : Option Num)
      → Along R (confirm_entry numbers deps entry amount)
  unfolding confirm_entry
  confirm_entry-Along none amount = search (along_rules, allows)
  confirm_entry-Along (some entry) amount = search (along_rules, allows, entry_moved, credit-Along)

  pub handle_payment_confirmed-Along :
      (reference : String) (amount : Option Num)
      → Along R (handle_payment_confirmed numbers deps reference amount)
  unfolding handle_payment_confirmed
  handle_payment_confirmed-Along reference amount =
      search (along_rules, allows, confirm_entry-Along)

  fail_entry-Along :
      (entry : Option (CreditLedgerEntry Num)) (reason : Option String)
      → Along R (fail_entry numbers deps entry reason)
  unfolding fail_entry
  fail_entry-Along none reason = search (along_rules, allows)
  fail_entry-Along (some entry) reason = search (along_rules, allows, entry_moved)

  pub handle_payment_failed-Along :
      (reference : String) (reason : Option String)
      → Along R (handle_payment_failed numbers deps reference reason)
  unfolding handle_payment_failed
  handle_payment_failed-Along reference reason = search (along_rules, allows, fail_entry-Along)

  expire_each-Along :
      (entries : List (CreditLedgerEntry Num)) → Along R (expire_each numbers deps entries)
  unfolding expire_each
  expire_each-Along [] = search (along_rules, allows)
  expire_each-Along (entry ∷ entries) =
      bind-Along numbers allows _ _
        (updates-Along _ (λ r. entry_moved entry.id (pending ∷ []) expired none r refl refl))
        (λ changed.
          bind-Along numbers allows _ _ (expire_each-Along entries)
            (λ rest. pure-Along numbers allows _))

  pub expire_stale_top_ups-Along :
      (now timeout_ms : ℕ) → Along R (expire_stale_top_ups numbers deps now timeout_ms)
  unfolding expire_stale_top_ups
  expire_stale_top_ups-Along now timeout_ms = search (along_rules, allows, expire_each-Along)

  pub request_top_up-Along :
      (now : ℕ) (user_id : String) (amount : Num) (currency email : Option String)
      → Along R (request_top_up numbers deps now user_id amount currency email)
  unfolding request_top_up
  request_top_up-Along now user_id amount currency email =
      search (along_rules, allows, wallet_read, remember_email-Along, entry_created, entry_moved)
        depth 14
