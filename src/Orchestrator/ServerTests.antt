-- ===== src/Orchestrator/ServerTests.antt =====
-- Tests and instances of the theorems about transfers, reconciling, retention, ports and pages.
use nexus_infra.Prelude.{
  ◌+◌, ◌≤◌, ◌<◌, String, ◌≡◌, refl, Bool, true, false, none, some, List, [], ◌∷◌, length, All,
  arith,
}
use nexus_infra.Prelude.Assoc.{Assoc}
use nexus_infra.Orchestrator.Reconcile.{
  ContainerState, DeploymentView, mark_running, decide, apply_action, apply_all, reconcile_node,
  on_node, believed_up, container_of, is_up, adopt,
}
use nexus_infra.Orchestrator.Reconcile.Converge.{applied-settles, reconcile_node-elsewhere}
use nexus_infra.Orchestrator.Retention.{ServerBackupRecord, BackupRetention, expired_backups}
use nexus_infra.Orchestrator.Retention.Kept.{expired_backups-leaves}
use nexus_infra.Orchestrator.Ports.{
  PortRange, TakenPorts, allotted, plan_ports, is_auto, explicit_ports, auto_ports, finish,
  take_explicit, take_auto, as_port, digits_value, in_bounds, holder_of, add_port, set_port,
  is_self, is_open, outside, is_free, first_free, choose,
}
use nexus_infra.Orchestrator.Ports.Allotted.{IsAllowed, plan_ports-All}

abbrev recorded : DeploymentView
recorded = record {
  id = "d1";
  node_id = some "n1";
  status = "stopped";
  container_id = some "c1";
  restart_policy = none;
  auto_restart = false;
}

abbrev elsewhere : DeploymentView
elsewhere = record recorded { id = "d2"; node_id = some "n2" }

abbrev running_there : List ContainerState
running_there = record { container_id = "c1"; running = true } ∷ []

applied-settles_example :
    decide running_there (
      apply_action
        (λ id. true)
        (mark_running "d1" "c1"
          "the container is running, though this server was recorded as stopped")
        recorded)
    ≡ none
unfolding decide believed_up container_of is_up adopt
applied-settles_example =
    applied-settles (λ id. true) running_there recorded
      (mark_running "d1" "c1"
        "the container is running, though this server was recorded as stopped")
      refl refl

reconcile_node-elsewhere_example :
    apply_all
      (λ id. true)
      (reconcile_node
        (recorded ∷ elsewhere ∷ [])
        (record { node_id = "n1"; containers = running_there }))
      elsewhere
    ≡ elsewhere
unfolding on_node
reconcile_node-elsewhere_example =
    reconcile_node-elsewhere (λ id. true) (recorded ∷ elsewhere ∷ [])
      (record { node_id = "n1"; containers = running_there }) elsewhere refl

abbrev later : String → String → Bool
later a b = false

abbrev backups : List ServerBackupRecord
backups =
    record { id = "b1"; created_at = 10 }
    ∷ record { id = "b2"; created_at = 20 }
    ∷ record { id = "b3"; created_at = 30 }
    ∷ []

abbrev daily : BackupRetention
daily = record { keep_last = some 2; keep_days = some 1 }

expired_backups-leaves_example :
    (length (expired_backups later backups daily 900000000) < length backups)
    × (length backups ≤ length (expired_backups later backups daily 900000000) + 2)
expired_backups-leaves_example = expired_backups-leaves later backups daily 900000000 (omega arith)

abbrev pool : PortRange
pool = record { start = 25565; end = 25570 }

abbrev held : TakenPorts
held = (25566, record { deployment_id = "d9"; name = "survival" }) ∷ []

abbrev wanted_ports : Assoc String
wanted_ports = ("25565", "25565") ∷ ("auto", "8123") ∷ []

plans_ports :
    plan_ports (λ s. s) (some pool) held none wanted_ports
    ≡ allotted ((25565, "25565") ∷ (25567, "8123") ∷ []) (25565 ∷ 25567 ∷ [])
unfolding plan_ports is_auto explicit_ports auto_ports finish take_explicit take_auto as_port
    digits_value in_bounds holder_of add_port set_port is_self is_open outside is_free first_free
    choose
plans_ports = refl

plan_ports-All_example : All (IsAllowed (some pool) held none) (25565 ∷ 25567 ∷ [])
plan_ports-All_example =
    plan_ports-All (λ s. s) (some pool) held none wanted_ports
      ((25565, "25565") ∷ (25567, "8123") ∷ []) (25565 ∷ 25567 ∷ []) plans_ports
