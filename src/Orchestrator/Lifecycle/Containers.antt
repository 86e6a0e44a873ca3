-- ===== src/Orchestrator/Lifecycle/Containers.antt =====
-- Late reports on containers that a server has replaced (services/orchestrator/src/lifecycle.ts).
use nexus_infra.Prelude.{
  ℕ, String, ◌≡◌, refl, Bool, true, false, some, List, [], ◌∷◌, str_eq, eq_iff, arith, All, concat,
}
use nexus_infra.Prelude.Assoc.{lookup, insert, lookup-insert}
use nexus_infra.Orchestrator.Store.Rows.{
  DeploymentRecord, DeploymentStatusPatch, DeploymentView, DeploymentDetail, ServerConfigRecord,
  Store,
}
use nexus_infra.Orchestrator.Store.Servers.{
  patch_deployment, update_deployment_status, append_deployment_event, to_view, find_server, detail,
  get_deployment,
}
use nexus_infra.Orchestrator.Lifecycle.{
  ReportType, server_started, server_stopped, server_crashed, ReportPayload, started_patch,
  reported_server, has_other, is_history, record_status, on_started, on_stopped, on_crashed,
  report_on, handle_report,
}

-- The server is there and runs the container.
abbrev pub Runs : String → String → Store → Type 0
Runs id container_id s =
    (deployment : DeploymentRecord) × (config : ServerConfigRecord) × (lookup id s.deployments
      ≡ some deployment)
    × (lookup deployment.server_config_id s.configs ≡ some config)
    × (deployment.container_id ≡ some container_id)

get_deployment-some :
    (id : String) (s : Store) (deployment : DeploymentRecord) (config : ServerConfigRecord)
    → lookup id s.deployments ≡ some deployment
    → lookup deployment.server_config_id s.configs ≡ some config
    → (d : DeploymentDetail) × (get_deployment id s ≡ some d) × (d.view.deployment ≡ deployment)
unfolding get_deployment find_server to_view detail
get_deployment-some id s deployment config there configured =
    let view : DeploymentView = record {
      deployment = deployment;
      name = config.name;
      docker_image = config.docker_image;
      user_id = config.user_id;
      team_id = config.team_id;
      type = config.type;
      resource_limits = config.resource_limits;
      auto_restart = config.auto_restart;
    } in
    (detail id s view config, ground (arith, there, configured), refl)

is_history-other :
    (id container_id reported : String) (s : Store)
    → Runs id container_id s
    → str_eq container_id "" ≡ false
    → str_eq reported "" ≡ false
    → str_eq container_id reported ≡ false
    → is_history id reported s ≡ true
unfolding is_history has_other
is_history-other id container_id reported s (deployment, config, there, configured, runs) named
      given other =
    let (d, found, same) = get_deployment-some id s deployment config there configured in
    let holds : d.view.deployment.container_id ≡ some container_id = rw same runs in
    ground (arith, found, holds, named, given, other)

-- A report that a container of a server stopped, or crashed.
pub record LateReport : Type 0 where
  pub crashed : Bool
  pub event_id : String
  pub now : ℕ
  pub payload : ReportPayload

abbrev report_type : Bool → ReportType
report_type true = server_crashed
report_type false = server_stopped

unfoldable pub handle_late : List LateReport → Store → Store
handle_late [] s = s
handle_late (r ∷ rs) s =
    handle_late rs (handle_report (report_type r.crashed) r.event_id r.now r.payload s).0

-- It is about the server, and about another container.
abbrev pub IsStale : String → String → LateReport → Type 0
IsStale id container_id r =
    (r.payload.deployment_id ≡ id)
    × (str_eq r.payload.container_id "" ≡ false)
    × (str_eq container_id r.payload.container_id ≡ false)

report_on-stale :
    (crashed : Bool) (event_id : String) (now : ℕ) (id : String) (p : ReportPayload) (s : Store)
    → is_history id p.container_id s ≡ true
    → (report_on (report_type crashed) event_id now id p s).0 ≡ s
unfolding report_on on_stopped on_crashed
report_on-stale true event_id now id p s history = ground (arith, history)
report_on-stale false event_id now id p s history = ground (arith, history)

handle_report-stale :
    (id container_id : String) (r : LateReport) (s : Store)
    → Runs id container_id s
    → str_eq id "" ≡ false
    → str_eq container_id "" ≡ false
    → IsStale id container_id r
    → (handle_report (report_type r.crashed) r.event_id r.now r.payload s).0 ≡ s
unfolding handle_report reported_server
handle_report-stale id container_id r s runs given named (mine, reported, other) =
    let history =
      is_history-other id container_id r.payload.container_id s runs named reported other in
    ground (arith, mine, given, report_on-stale r.crashed r.event_id r.now id r.payload s history)

handle_late-stale :
    (id container_id : String) (rs : List LateReport) (s : Store)
    → Runs id container_id s
    → str_eq id "" ≡ false
    → str_eq container_id "" ≡ false
    → All (IsStale id container_id) rs
    → handle_late rs s ≡ s
unfolding handle_late
handle_late-stale id container_id [] s runs given named all = refl
handle_late-stale id container_id (r ∷ rs) s runs given named (stale, all) =
    rw (handle_report-stale id container_id r s runs given named stale)
      (handle_late-stale id container_id rs s runs given named all)

record_status-tables :
    (event_id : String) (now : ℕ) (id : String) (patch : DeploymentStatusPatch)
    (event message : String) (s : Store) (deployment : DeploymentRecord)
    → lookup id s.deployments ≡ some deployment
    → ((record_status event_id now id patch event message s).deployments
        ≡ insert id (patch_deployment patch deployment) s.deployments)
      × ((record_status event_id now id patch event message s).configs ≡ s.configs)
unfolding record_status update_deployment_status append_deployment_event
record_status-tables event_id now id patch event message s deployment there =
    (ground (arith, there), ground (arith, there))

on_started-Runs :
    (event_id : String) (now : ℕ) (id : String) (p : ReportPayload) (s : Store)
    (deployment : DeploymentRecord) (config : ServerConfigRecord)
    → lookup id s.deployments ≡ some deployment
    → lookup deployment.server_config_id s.configs ≡ some config
    → Runs id p.container_id (on_started event_id now id p s)
unfolding on_started patch_deployment
on_started-Runs event_id now id p s deployment config there configured =
    let patch = started_patch now p in
    let now_running = patch_deployment patch deployment in
    let (d, c) =
      record_status-tables event_id now id patch "started"
        (concat ("container " ∷ p.container_id ∷ " started" ∷ [])) s deployment there in
    (
      now_running,
      config,
      rw d (ground (arith, lookup-insert id id now_running s.deployments, eq_iff id id)),
      rw c configured,
      refl,
    )

-- Once a server that is there is reported to run a container, late reports that other containers of
-- it stopped or crashed, however many and in whatever order, change nothing in the store: they do
-- not mark the server stopped, forget its container or add to its trail.
pub handle_late-start :
    (event_id : String) (now : ℕ) (p : ReportPayload) (rs : List LateReport) (s : Store)
    (deployment : DeploymentRecord) (config : ServerConfigRecord)
    → lookup p.deployment_id s.deployments ≡ some deployment
    → lookup deployment.server_config_id s.configs ≡ some config
    → str_eq p.deployment_id "" ≡ false
    → str_eq p.container_id "" ≡ false
    → All (IsStale p.deployment_id p.container_id) rs
    → handle_late rs (handle_report server_started event_id now p s).0
      ≡ (handle_report server_started event_id now p s).0
handle_late-start event_id now p rs s deployment config there configured given named all =
    let started : (handle_report server_started event_id now p s).0
        ≡ on_started event_id now p.deployment_id p s =
      unfold handle_report reported_server report_on in ground (arith, given) in
    rw started (
      handle_late-stale p.deployment_id p.container_id rs
        (on_started event_id now p.deployment_id p s)
        (on_started-Runs event_id now p.deployment_id p s deployment config there configured) given
        named all)
