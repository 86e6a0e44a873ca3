-- ===== src/Billing/Service/Plans.antt =====
-- The plan catalogue: `createPlan`, `updatePlan` and `changePlan` of
-- services/billing-bridge/src/service.ts.
pub mod Steps
pub mod Running
use Prim.Native.Char.{code}
use Prim.Native.String
use Prim.Native.String.{String}
use nexus_infra.Prelude.{
  ℕ, Bool, true, false, not, ◌&&◌, ◌||◌, Option, none, some, List, [], ◌∷◌, ltb, leb, ◌==◌, str_eq,
  if◌then◌else◌, or_else, filter, is_none,
}
use nexus_infra.Prelude.Assoc.{Assoc, lookup}
use nexus_infra.Prelude.Text.{trim, utf16_length, slice_to}
use nexus_infra.Billing.Number.{Numbers, literal}
use nexus_infra.Billing.Types.{BillingPlan, ServerBillingRecord, OpenIntervalInput}
use nexus_infra.Billing.Pricing.{default_plan}
use nexus_infra.Billing.Repository.{
  is_open, get_plan, save_plan, get_user_plan, set_user_plan, list_intervals, close_interval,
  open_interval,
}
use nexus_infra.Billing.Service.{
  Deps, Action, BillingError, ◌>>=◌, ◌>>◌, pure, raise, raise_if, reads, writes, fresh_id, bad_plan,
  name_unusable, plan_exists, no_such_plan, default_plan_kept, plan_not_offered,
}
use nexus_infra.Billing.Service.PlanInput.{
  Value, PlanInput, Parsed, parsed, problem, parse_plan_input, retire_problem, switch_problem,
  plan_id_from,
}

module _ (numbers : Numbers) (deps : Deps (numbers.Num)) where
  open numbers use {Num}

  abbrev or_raise : {A : Type 0} → Parsed A → Action Num A
  or_raise (parsed value) = pure value
  or_raise (problem why) = raise (bad_plan why)

  abbrev refuse : Option BillingError → Action Num (Unit {0})
  refuse none = pure tt
  refuse (some error) = raise error

  -- `savePlan({ id, currency, ...plan })`
  abbrev from_input : String → String → PlanInput Num → BillingPlan Num
  from_input id currency input = record {
    id = id;
    name = input.name;
    price_per_hour = input.price_per_hour;
    currency = currency;
    free_hours_per_month = input.free_hours_per_month;
    max_servers = input.max_servers;
    max_databases = input.max_databases;
    max_ram_mb = input.max_ram_mb;
    max_backups_per_server = input.max_backups_per_server;
    active = input.active;
  }

  unfoldable pub create_plan : (String → String) → Assoc (Value Num) → Action Num (BillingPlan Num)
  create_plan fold body = do
    input ← or_raise (parse_plan_input numbers body none)
    let id = plan_id_from fold input.name
    raise_if (str_eq id "") name_unusable
    existing ← reads (get_plan id)
    raise_if (not (is_none existing)) (plan_exists id)
    let plan = from_input id (default_plan numbers).currency input
    writes (save_plan plan)
    pure plan

  update_existing :
      String → Assoc (Value Num) → Option (BillingPlan Num) → Action Num (BillingPlan Num)
  update_existing id body none = raise no_such_plan
  update_existing id body (some existing) = do
    input ← or_raise (parse_plan_input numbers body (some existing))
    refuse (if input.active then none else retire_problem numbers existing)
    let plan = from_input id existing.currency input
    writes (save_plan plan)
    pure plan

  unfoldable pub update_plan : String → Assoc (Value Num) → Action Num (BillingPlan Num)
  unfolding update_existing
  update_plan id body = do existing ← reads (get_plan id); update_existing id body existing

  -- The loop of `changePlan`: each running interval is closed, and opened under the new plan.
  unfoldable pub reopen_each :
      ℕ → String → String → List (ServerBillingRecord Num) → Action Num (Unit {0})
  reopen_each at user_id plan_id [] = pure tt
  reopen_each at user_id plan_id (interval ∷ intervals) = do
    writes (close_interval interval.deployment_id at)
    id ← fresh_id deps
    let input : OpenIntervalInput Num = record {
      user_id = user_id;
      deployment_id = interval.deployment_id;
      plan_id = plan_id;
      limits = interval.limits;
      started_at = at;
    }
    writes (open_interval id at input)
    reopen_each at user_id plan_id intervals

  switch_to : ℕ → String → Option (BillingPlan Num) → BillingPlan Num → Action Num (BillingPlan Num)
  switch_to at user_id none current = raise no_such_plan
  switch_to at user_id (some target) current =
      if str_eq target.id current.id then pure target else do
        writes (set_user_plan user_id target.id)
        intervals ← reads (list_intervals user_id)
        reopen_each at user_id target.id (filter is_open intervals)
        pure target

  unfoldable pub change_plan : ℕ → String → String → Action Num (BillingPlan Num)
  unfolding switch_to
  change_plan at user_id plan_id = do
    target ← reads (get_plan plan_id)
    current ← reads (get_user_plan numbers user_id)
    refuse (switch_problem numbers target current.id)
    switch_to at user_id target current
