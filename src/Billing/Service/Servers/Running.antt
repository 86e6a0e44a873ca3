-- ===== src/Billing/Service/Servers/Running.antt =====
-- A start opens an interval only for a server that has none (`handleServerStarted` of
-- services/billing-bridge/src/service.ts).
use nexus_infra.Prelude.{ℕ, String, ◌≡◌, Option, none, some, inl, inr, Option-cases, arith}
use nexus_infra.Billing.Number.{Numbers}
use nexus_infra.Billing.Types.{BilledDeployment, OpenIntervalInput}
use nexus_infra.Billing.Repository.{get_open_interval, get_user_plan, open_interval}
use nexus_infra.Billing.Repository.Intervals.{
  KeepsOne, open_interval-OneOpen, get_open_interval-none,
}
use nexus_infra.Billing.Service.{Deps, ◌>>=◌}
use nexus_infra.Billing.Service.Along.{Along, Allows, pure-Along, bind-Along}
use nexus_infra.Billing.Service.Servers.{start, start_known, handle_server_started}
use nexus_infra.Billing.Service.Servers.Steps.{deployment_for-Along}

module _ (numbers : Numbers) (deps : Deps (numbers.Num)) (allows : Allows numbers KeepsOne) where
  open numbers use {Num}

  start_known-KeepsOne :
      (now : ℕ) (deployment_id : String) (deployment : Option (BilledDeployment Num))
      → Along KeepsOne (start_known numbers deps now deployment_id deployment)
  unfolding start_known start ◌>>=◌
  start_known-KeepsOne now deployment_id none = pure-Along numbers allows none
  start_known-KeepsOne now deployment_id (some deployment) = record {
    at = λ w. elim (Option-cases (get_open_interval deployment_id w.repo)) [
      | inl free ↦
          let input : OpenIntervalInput Num = record {
            user_id = deployment.user_id;
            deployment_id = deployment_id;
            plan_id = (get_user_plan numbers deployment.user_id w.repo).id;
            limits = deployment.limits;
            started_at = now;
          } in
          let same : (start_known numbers deps now deployment_id (some deployment) w).1.repo
              ≡ open_interval (deps.random_uuid w.drawn) now input w.repo =
            ground (arith, free) in
          rw same (record {
            keeps =
                open_interval-OneOpen (deps.random_uuid w.drawn) now input w.repo
                  (get_open_interval-none deployment_id w.repo free);
          })
      | inr (running, found) ↦
          let same : (start_known numbers deps now deployment_id (some deployment) w).1.repo
              ≡ w.repo =
            ground (arith, found) in
          rw same (record { keeps = λ one. one })
    ];
  }

  pub handle_server_started-KeepsOne :
      (now : ℕ) (deployment_id : String)
      → Along KeepsOne (handle_server_started numbers deps now deployment_id)
  unfolding handle_server_started
  handle_server_started-KeepsOne now deployment_id =
      bind-Along numbers allows _ _ (deployment_for-Along numbers deps allows deployment_id)
        (start_known-KeepsOne now deployment_id)
