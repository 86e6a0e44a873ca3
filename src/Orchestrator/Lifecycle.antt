-- ===== src/Orchestrator/Lifecycle.antt =====
-- The reports of node agents on servers, and suspension by billing (services/orchestrator/src/
-- lifecycle.ts and suspend.ts). A report is its decoded payload, where a text that is missing is the
-- empty one; random ids and the clock are arguments. What the handlers hand to others, the hook for a
-- crash and the messages to agents, is returned.
pub mod Containers
use nexus_infra.Prelude.{
  ℕ, String, Bool, true, false, not, ◌&&◌, ◌||◌, Option, none, some, List, [], ◌∷◌, ◌++◌,
  if◌then◌else◌, is_none, str_eq, find, concat,
}
use nexus_infra.Prelude.Text.{slice_to}
use nexus_infra.Orchestrator.Store.Rows.{
  DeploymentRecord, DeploymentStatusPatch, DeploymentView, DeploymentDetail, Store,
}
use nexus_infra.Orchestrator.Store.Servers.{
  update_deployment_status, append_deployment_event, list_deployments, get_deployment,
}

pub data ReportType : Type 0 where
  server_started : ReportType
  server_stopped : ReportType
  server_crashed : ReportType
  server_image_updated : ReportType
  server_update_failed : ReportType
  other_report : ReportType

pub record ReportPayload : Type 0 where
  pub deployment_id : String
  pub container_id : String
  pub node_id : String
  pub reason : Option String
  pub image : String
  pub digest : String
  pub recreated : Bool

abbrev pub no_patch : DeploymentStatusPatch
no_patch = record {
  status = none;
  node_id = none;
  container_id = none;
  started_at = none;
  stopped_at = none;
  suspended_at = none;
  suspended_reason = none;
}

unfoldable pub runs_container : String → DeploymentView → Bool
runs_container container_id d = elim d.deployment.container_id [
  | none ↦ false
  | some c ↦ str_eq c container_id
]

-- The server that a report is about: the one it names, or the one that has its container.
unfoldable pub reported_server : ReportPayload → Store → String
reported_server p s =
    if not (str_eq p.deployment_id "")
    then p.deployment_id
    else if str_eq p.container_id ""
    then ""
    else elim (find (runs_container p.container_id) (list_deployments s)) as (λ _. String) [
      | none ↦ ""
      | some d ↦ d.deployment.id
    ]

-- The server has a container, and it is not the one that is reported.
unfoldable pub has_other : String → Option String → Bool
has_other reported none = false
has_other reported (some current) = not (str_eq current "") && not (str_eq current reported)

-- A report on a container that the server has since replaced.
unfoldable pub is_history : String → String → Store → Bool
is_history deployment_id reported s =
    if str_eq reported "" then false else elim (get_deployment deployment_id s) [
      | none ↦ false
      | some detail ↦ has_other reported detail.view.deployment.container_id
    ]

-- A status change, and the event for it when the server is there.
unfoldable pub record_status :
    (event_id : String) (now : ℕ) (deployment_id : String)
    → DeploymentStatusPatch
    → (event message : String) → Store
    → Store
record_status event_id now deployment_id patch event message s =
    let (s', updated) = update_deployment_status deployment_id patch s in
    if is_none updated
    then s'
    else append_deployment_event event_id now deployment_id event message s'

unfoldable pub node_patch : String → Option (Option String)
node_patch node_id = if str_eq node_id "" then none else some (some node_id)

unfoldable pub reason_text : Option String → String
reason_text none = "unknown"
reason_text (some reason) = reason

abbrev pub started_patch : ℕ → ReportPayload → DeploymentStatusPatch
started_patch now p = record {
  status = some "running";
  node_id = node_patch p.node_id;
  container_id = some (some p.container_id);
  started_at = some (some now);
  stopped_at = none;
  suspended_at = some none;
  suspended_reason = some none;
}

unfoldable pub on_started : String → ℕ → String → ReportPayload → Store → Store
on_started event_id now deployment_id p s =
    record_status event_id now deployment_id (started_patch now p) "started"
      (concat ("container " ∷ p.container_id ∷ " started" ∷ [])) s

unfoldable pub on_stopped : String → ℕ → String → ReportPayload → Store → Store
on_stopped event_id now deployment_id p s =
    if is_history deployment_id p.container_id s
    then s
    else record_status event_id now deployment_id
        (record no_patch {
          status = some "stopped";
          container_id = some none;
          stopped_at = some (some now);
        })
        "stopped" "container stopped" s

-- Whether the hook for a crash is called with the reason.
unfoldable pub on_crashed :
    String → ℕ → String → ReportPayload → Store → Store × Option (String × String)
on_crashed event_id now deployment_id p s =
    if is_history deployment_id p.container_id s
    then (s, none)
    else let reason = reason_text p.reason in
      let (s', updated) =
        update_deployment_status deployment_id
          (record no_patch { status = some "crashed"; stopped_at = some (some now) }) s in
      if is_none updated then (s', none) else (
        append_deployment_event event_id now deployment_id "crashed" reason s',
        some (deployment_id, reason),
      )

unfoldable pub updated_text : ReportPayload → String
updated_text p = concat (
    "pulled "
    ∷ p.image
    ∷ " ("
    ∷ (if str_eq p.digest "" then "unknown digest" else slice_to 19 p.digest)
    ∷ ")"
    ∷ (if p.recreated then " and recreated the container" else " — applies on next start")
    ∷ [])

unfoldable pub update_failed_text : ReportPayload → String
update_failed_text p = concat (
    "could not pull "
    ∷ p.image
    ∷ ": "
    ∷ reason_text p.reason
    ∷ " — the server was left as it was"
    ∷ [])

unfoldable pub report_on :
    ReportType → String → ℕ → String → ReportPayload → Store → Store × Option (String × String)
report_on server_started event_id now id p s = (on_started event_id now id p s, none)
report_on server_stopped event_id now id p s = (on_stopped event_id now id p s, none)
report_on server_crashed event_id now id p s = on_crashed event_id now id p s
report_on server_image_updated event_id now id p s =
    (append_deployment_event event_id now id "image-updated" (updated_text p) s, none)
report_on server_update_failed event_id now id p s =
    (append_deployment_event event_id now id "update-failed" (update_failed_text p) s, none)
report_on other_report event_id now id p s = (s, none)

unfoldable pub handle_report :
    ReportType → String → ℕ → ReportPayload → Store → Store × Option (String × String)
handle_report type event_id now p s =
    let id = reported_server p s in
    if str_eq id "" then (s, none) else report_on type event_id now id p s

-- The message that stops a container.
pub record StopMessage : Type 0 where
  pub deployment_id : String
  pub node_id : String
  pub container_id : String

-- What stops a server that runs, if it does.
unfoldable pub stop_message : DeploymentRecord → Option StopMessage
stop_message d = elim d.container_id [
  | none ↦ none
  | some container_id ↦ elim d.node_id [
    | none ↦ none
    | some node_id ↦
        if str_eq container_id "" || str_eq node_id ""
        then none
        else some (record { deployment_id = d.id; node_id = node_id; container_id = container_id })
  ]
]

-- One server of the list; the message is published before the rest is written.
unfoldable pub suspend_one : String → ℕ → String → String → Store → Store × Option StopMessage
suspend_one event_id now reason id s = elim (get_deployment id s) [
  | none ↦ (s, none)
  | some detail ↦ elim (stop_message detail.view.deployment) [
    | none ↦ (s, none)
    | some message ↦ (
      append_deployment_event event_id now message.deployment_id "suspended"
          (concat ("suspended by billing: " ∷ reason ∷ []))
          (update_deployment_status message.deployment_id
            (record no_patch {
              suspended_at = some (some now);
              suspended_reason = some (some reason);
            })
            s).0,
      some message,
    )
  ]
]

abbrev pub with_message : Option StopMessage → List StopMessage → List StopMessage
with_message none messages = messages
with_message (some message) messages = message ∷ messages

-- Each server comes with the id of its event; the result has the messages in order.
unfoldable pub handle_suspend :
    ℕ → String → List (String × String) → Store → Store × List StopMessage
handle_suspend now reason [] s = (s, [])
handle_suspend now reason ((event_id, id) ∷ ids) s =
    let (s', message) = suspend_one event_id now reason id s in
    let (s'', messages) = handle_suspend now reason ids s' in (s'', with_message message messages)
