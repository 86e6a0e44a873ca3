-- ===== src/Billing/Service/Plans/Running.antt =====
-- A change of plan re-opens each running server's interval after closing it (`changePlan` of
-- services/billing-bridge/src/service.ts).
use nexus_infra.Prelude.{ℕ, String, Option, none, some, List, [], ◌∷◌}
use nexus_infra.Billing.Number.{Numbers}
use nexus_infra.Billing.Types.{BillingPlan, ServerBillingRecord, OpenIntervalInput}
use nexus_infra.Billing.Repository.{open_interval, close_interval}
use nexus_infra.Billing.Repository.Intervals.{
  KeepsOne, open_interval-OneOpen, close_interval-OneOpen, open_count-close_interval,
}
use nexus_infra.Billing.Service.{Deps, ◌>>=◌}
use nexus_infra.Billing.Service.Along.{Along, Allows, along_rules, raise-Along}
use nexus_infra.Billing.Service.Plans.{reopen_each, switch_to, change_plan}
use nexus_infra.Billing.Service.Plans.Steps.{refuse-Along}

module _ (numbers : Numbers) (deps : Deps (numbers.Num)) (allows : Allows numbers KeepsOne) where
  open numbers use {Num}
  open allows use {user_plan_set}

  reopen_each-KeepsOne :
      (at : ℕ) (user_id plan_id : String) (intervals : List (ServerBillingRecord Num))
      → Along KeepsOne (reopen_each numbers deps at user_id plan_id intervals)
  unfolding reopen_each ◌>>=◌
  reopen_each-KeepsOne at user_id plan_id [] = record { at = λ w. allows.stay w.repo }
  reopen_each-KeepsOne at user_id plan_id (i ∷ is) = record {
    at = λ w.
        let id = deps.random_uuid w.drawn in
        let input : OpenIntervalInput Num = record {
          user_id = user_id;
          deployment_id = i.deployment_id;
          plan_id = plan_id;
          limits = i.limits;
          started_at = at;
        } in
        let closed = close_interval i.deployment_id at w.repo in
        allows.chain w.repo (open_interval id at input closed) _
          (record {
            keeps = λ one.
                open_interval-OneOpen id at input closed
                  (open_count-close_interval i.deployment_id at w.repo one)
                  (close_interval-OneOpen i.deployment_id at w.repo one);
          })
          ((reopen_each-KeepsOne at user_id plan_id is).at _);
  }

  switch_to-KeepsOne :
      (at : ℕ) (user_id : String) (target : Option (BillingPlan Num)) (current : BillingPlan Num)
      → Along KeepsOne (switch_to numbers deps at user_id target current)
  unfolding switch_to
  switch_to-KeepsOne at user_id none current = raise-Along numbers allows _
  switch_to-KeepsOne at user_id (some target) current =
      search (along_rules, allows, user_plan_set, reopen_each-KeepsOne) depth 8

  pub change_plan-KeepsOne :
      (at : ℕ) (user_id plan_id : String)
      → Along KeepsOne (change_plan numbers deps at user_id plan_id)
  unfolding change_plan
  change_plan-KeepsOne at user_id plan_id =
      search (along_rules, allows, refuse-Along, switch_to-KeepsOne) depth 8
