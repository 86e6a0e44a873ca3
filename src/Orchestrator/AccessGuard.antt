-- ===== src/Orchestrator/AccessGuard.antt =====
-- What the routes on one server or one team ask before anything else
-- (services/orchestrator/src/accessGuard.ts).
use nexus_infra.Prelude.{String, Bool, false, ◌&&◌, ◌||◌, Option, none, some, if◌then◌else◌, str_eq}
use nexus_infra.Orchestrator.Users.{PlatformRole}
use nexus_infra.Orchestrator.Access.{
  Role, Permission, TeamRelation, TeamPermission, can, can_on_team, resolve_role,
  resolve_team_relation,
}
use nexus_infra.Orchestrator.Store.Rows.{
  ServerSubuserRecord, TeamRecord, DeploymentDetail, TeamMemberRecord, UserRecord, Store,
}
use nexus_infra.Orchestrator.Store.Accounts.{get_user}
use nexus_infra.Orchestrator.Store.Servers.{get_deployment}
use nexus_infra.Orchestrator.Store.Shares.{get_subuser_for}
use nexus_infra.Orchestrator.Store.Teams.{get_team, get_team_member}

pub record Principal : Type 0 where
  pub id : String
  pub platform_role : PlatformRole

pub record RequestAccess : Type 0 where
  pub role : Role
  pub deployment : DeploymentDetail

abbrev pub has_id : String → Option String → Bool
has_id id none = false
has_id id (some user_id) = str_eq user_id id

-- The role of a share that is active and bound to the caller.
unfoldable pub granted : Principal → Option ServerSubuserRecord → Option String
granted principal none = none
granted principal (some share) =
    if str_eq share.status "active" && has_id principal.id share.user_id
    then some share.role
    else none

unfoldable pub share_of : String → Option UserRecord → Store → Option ServerSubuserRecord
share_of deployment_id none s = none
share_of deployment_id (some caller) s = get_subuser_for deployment_id caller.email s

abbrev pub membership_role : Option TeamMemberRecord → Option String
membership_role none = none
membership_role (some m) = some m.role

-- `deployment.teamId ? … : null`
unfoldable pub team_role : Option String → String → Store → Option String
team_role none user_id s = none
team_role (some team_id) user_id s =
    if str_eq team_id "" then none else membership_role (get_team_member team_id user_id s)

unfoldable pub resolve_access : Principal → String → Store → Option RequestAccess
resolve_access principal deployment_id s = elim (get_deployment deployment_id s) [
  | none ↦ none
  | some detail ↦
      let share = share_of detail.view.deployment.id (get_user principal.id s) s in
      let role = resolve_role (record {
        principal_id = principal.id;
        platform_role = principal.platform_role;
        owner_id = detail.view.user_id;
        grant = granted principal share;
        membership = team_role detail.view.team_id principal.id s;
      }) in
      elim role [ none ↦ none | some r ↦ some (record { role = r; deployment = detail }) ]
]

unfoldable pub require_permission : Permission → RequestAccess → Bool
require_permission permission access = can (some access.role) permission

pub record TeamRequestAccess : Type 0 where
  pub relation : TeamRelation
  pub team : TeamRecord

unfoldable pub team_relation : TeamRecord → String → Store → Option TeamRelation
team_relation team user_id s = resolve_team_relation (record {
  principal_id = user_id;
  owner_id = team.owner_id;
  membership =
      if str_eq team.owner_id user_id
      then none
      else membership_role (get_team_member team.id user_id s);
})

unfoldable pub team_access_for : String → String → Store → Option TeamRequestAccess
team_access_for team_id user_id s = elim (get_team team_id s) [
  | none ↦ none
  | some team ↦ elim (team_relation team user_id s) [
    | none ↦ none
    | some relation ↦ some (record { relation = relation; team = team })
  ]
]

unfoldable pub require_team_permission : TeamPermission → TeamRequestAccess → Bool
require_team_permission permission access = can_on_team (some access.relation) permission

unfoldable pub require_team_permission_or_self :
    TeamPermission → String → String → TeamRequestAccess → Bool
require_team_permission_or_self permission subject caller access =
    str_eq subject caller || require_team_permission permission access
