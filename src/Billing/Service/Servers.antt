-- ===== src/Billing/Service/Servers.antt =====
-- Runtime intervals: `handleDeploymentCreated`, `handleServerStarted` and `handleServerStopped` of
-- services/billing-bridge/src/service.ts.
pub mod Steps
pub mod Running
pub mod Again
use nexus_infra.Prelude.{ℕ, String, Option, none, some, or_else}
use nexus_infra.Billing.Number.{Numbers}
use nexus_infra.Billing.Types.{
  ResourceLimits, BilledDeployment, ServerBillingRecord, OpenIntervalInput,
}
use nexus_infra.Billing.Repository.{
  save_deployment, get_deployment, get_last_interval, get_open_interval, get_user_plan,
  new_interval, open_interval, closing, close_interval,
}
use nexus_infra.Billing.Service.{Deps, Action, ◌>>=◌, ◌>>◌, pure, reads, writes, fresh_id}

abbrev pub no_limits : (Num : Type 0) → ResourceLimits Num
no_limits Num = record {
  ram_mb = none;
  cpu_cores = none;
  cpu_percent = none;
  ram_percent = none;
  disk_percent = none;
  swap_percent = none;
  io_priority = none;
  restart_policy = none;
  oom_kill = none;
}

module _ (numbers : Numbers) (deps : Deps (numbers.Num)) where
  open numbers use {Num}

  recover : String → Option (ServerBillingRecord Num) → Action Num (Option (BilledDeployment Num))
  recover deployment_id none = pure none
  recover deployment_id (some last) = do
    let recovered : BilledDeployment Num = record {
      deployment_id = deployment_id;
      user_id = last.user_id;
      limits = last.limits;
    }
    writes (save_deployment recovered)
    pure (some recovered)

  or_recover : String → Option (BilledDeployment Num) → Action Num (Option (BilledDeployment Num))
  unfolding recover
  or_recover deployment_id (some known) = pure (some known)
  or_recover deployment_id none = do
    last ← reads (get_last_interval deployment_id)
    recover deployment_id last

  unfoldable pub deployment_for : String → Action Num (Option (BilledDeployment Num))
  unfolding or_recover
  deployment_for deployment_id = do
    known ← reads (get_deployment deployment_id)
    or_recover deployment_id known

  unfoldable pub handle_deployment_created :
      String → String → Option (ResourceLimits Num) → Action Num (Unit {0})
  handle_deployment_created deployment_id user_id resource_limits = writes (
      save_deployment (record {
        deployment_id = deployment_id;
        user_id = user_id;
        limits = or_else resource_limits (no_limits Num);
      }))

  -- A server that runs already keeps its interval.
  start :
      ℕ
      → String
      → BilledDeployment Num
      → Option (ServerBillingRecord Num)
      → Action Num (Option (ServerBillingRecord Num))
  start now deployment_id deployment (some running) = pure (some running)
  start now deployment_id deployment none = do
    plan ← reads (get_user_plan numbers deployment.user_id)
    id ← fresh_id deps
    let input : OpenIntervalInput Num = record {
      user_id = deployment.user_id;
      deployment_id = deployment_id;
      plan_id = plan.id;
      limits = deployment.limits;
      started_at = now;
    }
    writes (open_interval id now input)
    pure (some (new_interval id now input))

  start_known :
      ℕ → String → Option (BilledDeployment Num) → Action Num (Option (ServerBillingRecord Num))
  unfolding start
  start_known now deployment_id none = pure none
  start_known now deployment_id (some deployment) = do
    running ← reads (get_open_interval deployment_id)
    start now deployment_id deployment running

  unfoldable pub handle_server_started : ℕ → String → Action Num (Option (ServerBillingRecord Num))
  unfolding start_known
  handle_server_started now deployment_id = do
    deployment ← deployment_for deployment_id
    start_known now deployment_id deployment

  unfoldable pub handle_server_stopped : ℕ → String → Action Num (Option (ServerBillingRecord Num))
  handle_server_stopped now deployment_id = do
    closed ← reads (closing deployment_id now)
    writes (close_interval deployment_id now)
    pure closed
