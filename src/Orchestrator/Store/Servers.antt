-- ===== src/Orchestrator/Store/Servers.antt =====
-- Servers, their configurations and their events in the orchestrator's store
-- (services/orchestrator/src/repository.ts).
use nexus_infra.Prelude.{
  ℕ, String, Bool, false, not, ◌&&◌, ◌||◌, Option, none, some, List, [], ◌∷◌, ◌++◌, map, leb,
  str_eq, or_else, filter, sort_by,
}
use nexus_infra.Prelude.Assoc.{lookup, insert, erase, values, drop_where}
use nexus_infra.Orchestrator.Store.Rows.{
  ServerConfigRecord, CreateServerConfigInput, UpdateServerConfigInput, DeploymentRecord,
  DeploymentStatusPatch, DeploymentView, DeploymentDetail, ServerSubuserRecord, Store,
}
use nexus_infra.Orchestrator.Store.Teams.{teams_of, contains}

unfoldable pub create_server_config :
    String → ℕ → CreateServerConfigInput → Store → Store × ServerConfigRecord
create_server_config id now input s =
    let config : ServerConfigRecord = record {
      id = id;
      user_id = input.user_id;
      team_id = input.team_id;
      name = input.name;
      docker_image = input.docker_image;
      ports = or_else input.ports [];
      env = or_else input.env [];
      resource_limits = or_else input.resource_limits "{}";
      auto_restart = or_else input.auto_restart false;
      data_path = input.data_path;
      persist_paths = or_else input.persist_paths [];
      backup_retention = record { keep_last = none; keep_days = none };
      type = or_else input.type "generic";
      created_at = now;
    } in
    (record s { configs = insert id config s.configs }, config)

unfoldable pub create_deployment :
    String → ℕ → String → Option String → Store → Store × DeploymentRecord
create_deployment id now server_config_id node_id s =
    let deployment : DeploymentRecord = record {
      id = id;
      server_config_id = server_config_id;
      node_id = node_id;
      container_id = none;
      status = "pending";
      started_at = none;
      stopped_at = none;
      created_at = now;
      suspended_at = none;
      suspended_reason = none;
    } in
    (record s { deployments = insert id deployment s.deployments }, deployment)

unfoldable pub patch_deployment : DeploymentStatusPatch → DeploymentRecord → DeploymentRecord
patch_deployment patch current = record current {
  status = or_else patch.status current.status;
  node_id = or_else patch.node_id current.node_id;
  container_id = or_else patch.container_id current.container_id;
  started_at = or_else patch.started_at current.started_at;
  stopped_at = or_else patch.stopped_at current.stopped_at;
  suspended_at = or_else patch.suspended_at current.suspended_at;
  suspended_reason = or_else patch.suspended_reason current.suspended_reason;
}

unfoldable pub update_deployment_status :
    String → DeploymentStatusPatch → Store → Store × Option DeploymentRecord
update_deployment_status id patch s = elim (lookup id s.deployments) [
  | none ↦ (s, none)
  | some current ↦ (
    record s { deployments = insert id (patch_deployment patch current) s.deployments },
    some (patch_deployment patch current),
  )
]

unfoldable pub append_deployment_event : String → ℕ → String → String → String → Store → Store
append_deployment_event id now deployment_id event message s = record s {
  events =
      s.events
      ++ record {
        id = id;
        deployment_id = deployment_id;
        event = event;
        message = message;
        timestamp = now;
      }
        ∷ [];
}

unfoldable pub to_view : Store → DeploymentRecord → Option DeploymentView
to_view s d = elim (lookup d.server_config_id s.configs) [
  | none ↦ none
  | some config ↦ some (record {
    deployment = d;
    name = config.name;
    docker_image = config.docker_image;
    user_id = config.user_id;
    team_id = config.team_id;
    type = config.type;
    resource_limits = config.resource_limits;
    auto_restart = config.auto_restart;
  })
]

-- `.map(toView).filter((v) => v !== null)`
unfoldable pub views : Store → List DeploymentRecord → List DeploymentView
views s [] = []
views s (d ∷ ds) =
    let rest = views s ds in elim (to_view s d) [ none ↦ rest | some view ↦ view ∷ rest ]

unfoldable pub list_deployments : Store → List DeploymentView
list_deployments s =
    sort_by (λ a b. leb b.deployment.created_at a.deployment.created_at)
      (views s (values s.deployments))

unfoldable pub is_user : String → Option String → Bool
is_user id none = false
is_user id (some user_id) = str_eq user_id id

-- The servers that are shared with an account; an invitation that is pending grants nothing.
unfoldable pub shared_with : String → Store → List String
shared_with user_id s =
    map (λ (x : ServerSubuserRecord). x.deployment_id)
      (filter (λ x. is_user user_id x.user_id && str_eq x.status "active") (values s.subusers))

unfoldable pub of_my_teams : List String → Option String → Bool
of_my_teams teams none = false
of_my_teams teams (some team_id) = contains team_id teams

unfoldable pub may_see : String → Store → DeploymentView → Bool
may_see user_id s d =
    str_eq d.user_id user_id
    || contains d.deployment.id (shared_with user_id s)
    || of_my_teams (teams_of user_id s) d.team_id

unfoldable pub list_deployments_for_user : String → Store → List DeploymentView
list_deployments_for_user user_id s = filter (may_see user_id s) (list_deployments s)

unfoldable pub detail : String → Store → DeploymentView → ServerConfigRecord → DeploymentDetail
detail id s view config = record {
  view = view;
  events =
      sort_by (λ a b. leb a.timestamp b.timestamp)
        (filter (λ e. str_eq e.deployment_id id) s.events);
  ports = config.ports;
  env = config.env;
  persist_paths = config.persist_paths;
  backup_retention = config.backup_retention;
}

-- A server and its configuration, when both are there.
unfoldable pub find_server : String → Store → Option (DeploymentRecord × ServerConfigRecord)
find_server id s = elim (lookup id s.deployments) [
  | none ↦ none
  | some deployment ↦ elim (lookup deployment.server_config_id s.configs) [
    | none ↦ none
    | some config ↦ some (deployment, config)
  ]
]

unfoldable pub get_deployment : String → Store → Option DeploymentDetail
get_deployment id s = elim (find_server id s) [
  | none ↦ none
  | some (deployment, config) ↦ elim (to_view s deployment) [
    | none ↦ none
    | some view ↦ some (detail id s view config)
  ]
]

unfoldable pub get_deployment_config : String → Store → Option ServerConfigRecord
get_deployment_config id s = elim (find_server id s) [
  | none ↦ none
  | some (deployment, config) ↦ some config
]

unfoldable pub delete_deployment : String → Store → Store
delete_deployment id s = elim (lookup id s.deployments) [
  | none ↦ s
  | some deployment ↦ record s {
    events = filter (λ e. not (str_eq e.deployment_id id)) s.events;
    databases = drop_where (λ d. str_eq d.deployment_id id) s.databases;
    backups = drop_where (λ b. str_eq b.deployment_id id) s.backups;
    schedules = drop_where (λ x. str_eq x.deployment_id id) s.schedules;
    subusers = drop_where (λ x. str_eq x.deployment_id id) s.subusers;
    port_allocations = drop_where (λ a. str_eq a.deployment_id id) s.port_allocations;
    deployments = erase id s.deployments;
    configs = erase deployment.server_config_id s.configs;
  }
]

unfoldable pub patch_config : UpdateServerConfigInput → ServerConfigRecord → ServerConfigRecord
patch_config patch config = record config {
  name = or_else patch.name config.name;
  docker_image = or_else patch.docker_image config.docker_image;
  ports = or_else patch.ports config.ports;
  env = or_else patch.env config.env;
  resource_limits = or_else patch.resource_limits config.resource_limits;
  auto_restart = or_else patch.auto_restart config.auto_restart;
  persist_paths = or_else patch.persist_paths config.persist_paths;
  backup_retention = or_else patch.backup_retention config.backup_retention;
}

unfoldable pub update_deployment_config :
    String → UpdateServerConfigInput → Store → Store × Option ServerConfigRecord
update_deployment_config deployment_id patch s = elim (find_server deployment_id s) [
  | none ↦ (s, none)
  | some (deployment, config) ↦
      let next = patch_config patch config in
      (record s { configs = insert config.id next s.configs }, some next)
]
