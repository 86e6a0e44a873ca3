-- ===== src/Billing/Service/Plans/Steps.antt =====
-- The operations on plans take the store along every relation that its methods keep to.
use nexus_infra.Prelude.{ℕ, String, Option, none, some, List, [], ◌∷◌}
use nexus_infra.Prelude.Assoc.{Assoc}
use nexus_infra.Billing.Number.{Numbers}
use nexus_infra.Billing.Types.{BillingPlan, ServerBillingRecord, OpenIntervalInput}
use nexus_infra.Billing.Repository.{Repo, open_interval}
use nexus_infra.Billing.Service.{Deps, BillingError}
use nexus_infra.Billing.Service.Along.{
  Along, Allows, along_rules, bind-Along, pure-Along, raise-Along, writes-Along, fresh_id-Along,
}
use nexus_infra.Billing.Service.PlanInput.{Value, Parsed, parsed, problem}
use nexus_infra.Billing.Service.Plans.{
  or_raise, refuse, create_plan, update_existing, update_plan, reopen_each, switch_to, change_plan,
}

module _ (numbers : Numbers) (deps : Deps (numbers.Num))
    {R : Repo (numbers.Num) → Repo (numbers.Num) → Type 0} (allows : Allows numbers R) where
  open numbers use {Num}
  open allows use {plan_saved, user_plan_set, interval_closed}

  or_raise-Along : {A : Type 0} (p : Parsed A) → Along R (or_raise numbers deps p)
  or_raise-Along (parsed value) = pure-Along numbers allows value
  or_raise-Along (problem why) = raise-Along numbers allows _

  pub refuse-Along : (e : Option BillingError) → Along R (refuse numbers deps e)
  refuse-Along none = pure-Along numbers allows tt
  refuse-Along (some e) = raise-Along numbers allows e

  pub create_plan-Along :
      (fold : String → String) (body : Assoc (Value Num))
      → Along R (create_plan numbers deps fold body)
  unfolding create_plan
  create_plan-Along fold body = search (along_rules, allows, or_raise-Along, plan_saved) depth 10

  update_existing-Along :
      (id : String) (body : Assoc (Value Num)) (existing : Option (BillingPlan Num))
      → Along R (update_existing numbers deps id body existing)
  unfolding update_existing
  update_existing-Along id body none = search (along_rules, allows)
  update_existing-Along id body (some existing) =
      search (along_rules, allows, or_raise-Along, refuse-Along, plan_saved) depth 10

  pub update_plan-Along :
      (id : String) (body : Assoc (Value Num)) → Along R (update_plan numbers deps id body)
  unfolding update_plan
  update_plan-Along id body = search (along_rules, allows, update_existing-Along)

  -- Where the relation lets intervals be opened freely.
  module _
      (opened : (id : String) (now : ℕ) (input : OpenIntervalInput Num) (r : Repo Num)
        → R r (open_interval id now input r)) where
    reopen_each-Along :
        (at : ℕ) (user_id plan_id : String) (intervals : List (ServerBillingRecord Num))
        → Along R (reopen_each numbers deps at user_id plan_id intervals)
    unfolding reopen_each
    reopen_each-Along at user_id plan_id [] = search (along_rules, allows)
    reopen_each-Along at user_id plan_id (i ∷ is) =
        bind-Along numbers allows _ _ (writes-Along _ (interval_closed i.deployment_id at))
          (λ closed. bind-Along numbers allows _ _ (fresh_id-Along numbers allows deps) (λ id.
            bind-Along numbers allows _ _ (writes-Along _ (opened id at _))
              (λ o. reopen_each-Along at user_id plan_id is)))

    switch_to-Along :
        (at : ℕ) (user_id : String) (target : Option (BillingPlan Num)) (current : BillingPlan Num)
        → Along R (switch_to numbers deps at user_id target current)
    unfolding switch_to
    switch_to-Along at user_id none current = search (along_rules, allows)
    switch_to-Along at user_id (some target) current =
        search (along_rules, allows, user_plan_set, reopen_each-Along) depth 8

    pub change_plan-Along :
        (at : ℕ) (user_id plan_id : String) → Along R (change_plan numbers deps at user_id plan_id)
    unfolding change_plan
    change_plan-Along at user_id plan_id =
        search (along_rules, allows, refuse-Along, switch_to-Along) depth 8
