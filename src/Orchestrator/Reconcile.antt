-- ===== src/Orchestrator/Reconcile.antt =====
-- What a node's inventory means for the records (services/orchestrator/src/reconcile.ts): the
-- decisions, and what the handler then writes to the record of each server.
pub mod Converge
use nexus_infra.Prelude.{
  ℕ, String, Bool, true, false, Option, none, some, List, [], ◌∷◌, ◌++◌, ◌&&◌, ◌||◌, not, str_eq,
  if◌then◌else◌, filter, find_last,
}
use nexus_infra.Billing.Types.{RestartPolicy, always}

pub record ContainerState : Type 0 where
  pub container_id : String
  pub running : Bool

pub record NodeInventory : Type 0 where
  pub node_id : String
  pub containers : List ContainerState

-- The parts of a deployment that the decision reads.
pub record DeploymentView : Type 0 where
  pub id : String
  pub node_id : Option String
  pub status : String
  pub container_id : Option String
  pub restart_policy : Option RestartPolicy
  pub auto_restart : Bool

pub data ReconcileAction : Type 0 where
  mark_stopped : (deployment_id reason : String) → ReconcileAction
  restart : (deployment_id reason : String) → ReconcileAction
  mark_running : (deployment_id container_id reason : String) → ReconcileAction

unfoldable pub on_node : String → DeploymentView → Bool
on_node node_id d = elim d.node_id [ none ↦ false | some id ↦ str_eq id node_id ]

unfoldable pub believed_up : DeploymentView → Bool
believed_up d = str_eq d.status "running" || str_eq d.status "pending"

-- `byId.get(id)`: of two states of one container the later was set last.
unfoldable pub container_of : Option String → List ContainerState → Option ContainerState
container_of none cs = none
container_of (some id) cs =
    if str_eq id "" then none else find_last (λ c. str_eq c.container_id id) cs

unfoldable pub is_up : Option ContainerState → Bool
is_up none = false
is_up (some c) = c.running

-- `resourceLimits?.restartPolicy === 'always'`
unfoldable pub is_always : Option RestartPolicy → Bool
is_always none = false
is_always (some always) = true
is_always (some policy) = false

unfoldable pub gone_reason : DeploymentView → String
gone_reason d =
    if str_eq d.status "pending"
    then "the node restarted before this server was confirmed started"
    else "the container is gone after the node agent restarted"

unfoldable pub adopt : DeploymentView → Option ContainerState → Option ReconcileAction
adopt d none = none
adopt d (some c) = some (
    mark_running d.id c.container_id
      "the container is running, though this server was recorded as stopped")

-- One round of the loop of `reconcileNode`.
unfoldable pub decide : List ContainerState → DeploymentView → Option ReconcileAction
decide containers d =
    let container = container_of d.container_id containers in
    let adopted = adopt d container in
    if believed_up d && not (is_up container)
    then if is_always d.restart_policy || d.auto_restart
      then some (restart d.id (gone_reason d))
      else some (mark_stopped d.id (gone_reason d))
    else if not (believed_up d) && is_up container
    then adopted
    else none

unfoldable pub decide_each : List ContainerState → List DeploymentView → List ReconcileAction
decide_each containers [] = []
decide_each containers (d ∷ ds) =
    let rest = decide_each containers ds in
    elim (decide containers d) [ none ↦ rest | some action ↦ action ∷ rest ]

unfoldable pub reconcile_node : List DeploymentView → NodeInventory → List ReconcileAction
reconcile_node deployments inventory =
    decide_each inventory.containers (filter (on_node inventory.node_id) deployments)

-- `updateDeploymentStatus` with a status and a container.
unfoldable pub set_status : String → Option String → DeploymentView → DeploymentView
set_status status container_id d = record d { status = status; container_id = container_id }

-- What the handler writes to the record of the server that the action names. A restart needs the
-- server's configuration: `has_config id` is whether `getDeploymentConfig` finds one.
module _ (has_config : String → Bool) where
  unfoldable pub apply_action : ReconcileAction → DeploymentView → DeploymentView
  apply_action (mark_stopped id reason) d =
      if str_eq d.id id then set_status "stopped" none d else d
  apply_action (restart id reason) d =
      if str_eq d.id id && has_config id then set_status "pending" none d else d
  apply_action (mark_running id container_id reason) d =
      if str_eq d.id id then set_status "running" (some container_id) d else d

  unfoldable pub apply_all : List ReconcileAction → DeploymentView → DeploymentView
  apply_all [] d = d
  apply_all (action ∷ actions) d = apply_all actions (apply_action action d)
