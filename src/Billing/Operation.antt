-- ===== src/Billing/Operation.antt =====
-- Every operation of the billing service, and histories of them: the handlers of the event bus
-- (services/billing-bridge/src/index.ts), the routes of api.ts and the timers. One operation runs
-- to its end before the next begins.
pub mod Payments
pub mod Runtime
mod Tests
use nexus_infra.Prelude.{ℕ, String, Option, List, [], ◌∷◌}
use nexus_infra.Prelude.Assoc.{Assoc}
use nexus_infra.Billing.Number.{Numbers}
use nexus_infra.Billing.Types.{ResourceLimits}
use nexus_infra.Billing.Calendar.{CyclePeriod, previous_month_period}
use nexus_infra.Billing.Repository.{Repo}
use nexus_infra.Billing.Service.{Deps, World}
use nexus_infra.Billing.Service.Along.{Along, Allows}
use nexus_infra.Billing.Service.TopUps.{
  request_top_up, handle_payment_confirmed, handle_payment_failed, expire_stale_top_ups,
}
use nexus_infra.Billing.Service.TopUps.Steps.{
  request_top_up-Along, handle_payment_confirmed-Along, handle_payment_failed-Along,
  expire_stale_top_ups-Along,
}
use nexus_infra.Billing.Service.Servers.{
  handle_deployment_created, handle_server_started, handle_server_stopped,
}
use nexus_infra.Billing.Service.Servers.Steps.{
  handle_deployment_created-Along, handle_server_stopped-Along,
}
use nexus_infra.Billing.Service.Checks.{get_usage, get_standing, warn_low_credit, settle}
use nexus_infra.Billing.Service.Checks.Steps.{
  get_usage-Along, get_standing-Along, warn_low_credit-Along, settle-Along,
}
use nexus_infra.Billing.Service.Cycle.{run_billing_cycle}
use nexus_infra.Billing.Service.Cycle.Steps.{run_billing_cycle-Along}
use nexus_infra.Billing.Service.PlanInput.{Value}
use nexus_infra.Billing.Service.Plans.{create_plan, update_plan, change_plan}
use nexus_infra.Billing.Service.Plans.Steps.{create_plan-Along, update_plan-Along}
use nexus_infra.Billing.Service.Accounts.{list_accounts, adjust_credit}
use nexus_infra.Billing.Service.Accounts.Steps.{list_accounts-Along, adjust_credit-Along}

pub data Operation (Num : Type 0) : Type 0 where
  deployment_created :
      (deployment_id user_id : String) (limits : Option (ResourceLimits Num)) → Operation Num
  server_started : (now : ℕ) (deployment_id : String) → Operation Num
  server_stopped : (now : ℕ) (deployment_id : String) → Operation Num
  top_up :
      (now : ℕ) (user_id : String) (amount : Num) (currency email : Option String) → Operation Num
  payment_confirmed : (reference : String) (amount : Option Num) → Operation Num
  payment_failed : (reference : String) (reason : Option String) → Operation Num
  expire_top_ups : (now timeout_ms : ℕ) → Operation Num
  usage_read : (now : ℕ) (user_id : String) → Operation Num
  standing_read : (now : ℕ) (user_id : String) → Operation Num
  low_credit_warned : (now : ℕ) → Operation Num
  settled : (now : ℕ) → Operation Num
  plan_created : (fold : String → String) (body : Assoc (Value Num)) → Operation Num
  plan_updated : (id : String) (body : Assoc (Value Num)) → Operation Num
  plan_changed : (now : ℕ) (user_id plan_id : String) → Operation Num
  accounts_listed : (now : ℕ) → Operation Num
  credit_adjusted : (now : ℕ) (user_id : String) (amount : Num) (reason by : String) → Operation Num
  cycle_tick : (now : ℕ) → Operation Num

module _ (numbers : Numbers) (deps : Deps (numbers.Num)) where
  open numbers use {Num}

  -- What is left behind, whether the operation returns or throws.
  unfoldable pub perform : Operation Num → World Num → World Num
  perform (deployment_created d u limits) w =
      (handle_deployment_created numbers deps d u limits w).1
  perform (server_started now d) w = (handle_server_started numbers deps now d w).1
  perform (server_stopped now d) w = (handle_server_stopped numbers deps now d w).1
  perform (top_up now u amount currency email) w =
      (request_top_up numbers deps now u amount currency email w).1
  perform (payment_confirmed reference amount) w =
      (handle_payment_confirmed numbers deps reference amount w).1
  perform (payment_failed reference reason) w =
      (handle_payment_failed numbers deps reference reason w).1
  perform (expire_top_ups now timeout_ms) w = (expire_stale_top_ups numbers deps now timeout_ms w).1
  perform (usage_read now u) w = (get_usage numbers deps now u w).1
  perform (standing_read now u) w = (get_standing numbers deps now u w).1
  perform (low_credit_warned now) w = (warn_low_credit numbers deps now w).1
  perform (settled now) w = (settle numbers deps now w).1
  perform (plan_created fold body) w = (create_plan numbers deps fold body w).1
  perform (plan_updated id body) w = (update_plan numbers deps id body w).1
  perform (plan_changed now u p) w = (change_plan numbers deps now u p w).1
  perform (accounts_listed now) w = (list_accounts numbers deps now w).1
  perform (credit_adjusted now u amount reason by) w =
      (adjust_credit numbers deps now u amount reason by w).1
  perform (cycle_tick now) w = (run_billing_cycle numbers deps now (previous_month_period now) w).1

  unfoldable pub run : List (Operation Num) → World Num → World Num
  run [] w = w
  run (o ∷ os) w = run os (perform o w)

module _ (numbers : Numbers) (deps : Deps (numbers.Num))
    {R : Repo (numbers.Num) → Repo (numbers.Num) → Type 0} (allows : Allows numbers R)
    (started : (now : ℕ) (deployment_id : String)
      → Along R (handle_server_started numbers deps now deployment_id))
    (changed : (now : ℕ) (user_id plan_id : String)
      → Along R (change_plan numbers deps now user_id plan_id)) where
  open numbers use {Num}

  pub perform-along : (o : Operation Num) (w : World Num) → R w.repo (perform numbers deps o w).repo
  unfolding perform
  perform-along (deployment_created d u limits) w =
      (handle_deployment_created-Along numbers deps allows d u limits).at w
  perform-along (server_started now d) w = (started now d).at w
  perform-along (server_stopped now d) w =
      (handle_server_stopped-Along numbers deps allows now d).at w
  perform-along (top_up now u amount currency email) w =
      (request_top_up-Along numbers deps allows now u amount currency email).at w
  perform-along (payment_confirmed reference amount) w =
      (handle_payment_confirmed-Along numbers deps allows reference amount).at w
  perform-along (payment_failed reference reason) w =
      (handle_payment_failed-Along numbers deps allows reference reason).at w
  perform-along (expire_top_ups now timeout_ms) w =
      (expire_stale_top_ups-Along numbers deps allows now timeout_ms).at w
  perform-along (usage_read now u) w = (get_usage-Along numbers deps allows now u).at w
  perform-along (standing_read now u) w = (get_standing-Along numbers deps allows now u).at w
  perform-along (low_credit_warned now) w = (warn_low_credit-Along numbers deps allows now).at w
  perform-along (settled now) w = (settle-Along numbers deps allows now).at w
  perform-along (plan_created fold body) w = (create_plan-Along numbers deps allows fold body).at w
  perform-along (plan_updated id body) w = (update_plan-Along numbers deps allows id body).at w
  perform-along (plan_changed now u p) w = (changed now u p).at w
  perform-along (accounts_listed now) w = (list_accounts-Along numbers deps allows now).at w
  perform-along (credit_adjusted now u amount reason by) w =
      (adjust_credit-Along numbers deps allows now u amount reason by).at w
  perform-along (cycle_tick now) w =
      (run_billing_cycle-Along numbers deps allows now (previous_month_period now)).at w

  pub run-along :
      (os : List (Operation Num)) (w : World Num) → R w.repo (run numbers deps os w).repo
  unfolding run
  run-along [] w = allows.stay w.repo
  run-along (o ∷ os) w =
      allows.chain w.repo (perform numbers deps o w).repo _ (perform-along o w)
        (run-along os (perform numbers deps o w))
