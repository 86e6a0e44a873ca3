-- ===== src/Orchestrator/TeamRoutes.antt =====
-- The routes of teams (services/orchestrator/src/teams.ts) behind their guards. Of a field of a body
-- that has to be a text, `none` is any other value. `fold` is `toLowerCase`, `id` what `randomUUID`
-- gives.
pub mod Authorized
use Prim.Native.String
use Prim.Native.String.{String}
use nexus_infra.Prelude.{
  ℕ, Bool, true, false, Option, none, some, List, if◌then◌else◌, str_eq, is_none, or_else,
}
use nexus_infra.Prelude.Text.{trim}
use nexus_infra.Orchestrator.Access.{
  Role, role_name, grantable_role, server_delete, TeamPermission, team_view, team_members_manage,
  team_delete,
}
use nexus_infra.Orchestrator.AccessGuard.{
  Principal, RequestAccess, TeamRequestAccess, resolve_access, require_permission, team_access_for,
  require_team_permission, require_team_permission_or_self,
}
use nexus_infra.Orchestrator.Store.Rows.{
  TeamRecord, TeamMemberRecord, TeamMemberView, UserRecord, Store,
}
use nexus_infra.Orchestrator.Store.Accounts.{get_user_by_email}
use nexus_infra.Orchestrator.Store.Servers.{get_deployment_config}
use nexus_infra.Orchestrator.Store.Teams.{
  create_team, list_teams_for_user, delete_team, get_team_member, add_team_member,
  list_team_members, remove_team_member, set_server_team,
}

pub data TeamAnswer : Type 0 where
  listed : List TeamRecord → TeamAnswer
  shown : TeamRecord → List TeamMemberView → TeamAnswer
  created : TeamRecord → TeamAnswer
  joined : TeamMemberRecord → TeamAnswer
  done : TeamAnswer
  shared : (deployment_id : String) (team_id : Option String) → TeamAnswer
  failed : (status : ℕ) (error : String) → TeamAnswer

-- A route with what its path and its body name.
pub data TeamRequest : Type 0 where
  get_teams : TeamRequest
  post_team : (name : Option String) → TeamRequest
  get_one : (team_id : String) → TeamRequest
  delete_one : (team_id : String) → TeamRequest
  post_member : (team_id : String) (email role : Option String) → TeamRequest
  patch_member : (team_id user_id : String) (role : Option String) → TeamRequest
  delete_member : (team_id user_id : String) → TeamRequest

abbrev pub bad_role : TeamAnswer
bad_role = failed 400 "role must be admin, operator or viewer"

-- `typeof name === 'string' ? name.trim() : ''`
abbrev pub trimmed : Option String → String
trimmed none = ""
trimmed (some text) = trim text

abbrev pub found_by : (String → String) → Option String → Store → Option UserRecord
found_by fold none s = none
found_by fold (some email) s = get_user_by_email (fold (trim email)) s

-- What is behind the guard of a team's routes, where the caller has the permission.
unfoldable pub behind_guard :
    String
    → String
    → (TeamRequestAccess → Bool)
    → String
    → (TeamRecord → Store → Store × TeamAnswer)
    → Store
    → Store × TeamAnswer
behind_guard caller team_id permitted refusal handler s = elim (team_access_for team_id caller s) [
  | none ↦ (s, failed 404 "team not found")
  | some access ↦ if permitted access then handler access.team s else (s, failed 403 refusal)
]

unfoldable pub handle_post : String → ℕ → String → Option String → Store → Store × TeamAnswer
handle_post id now caller name s =
    if str_eq (trimmed name) ""
    then (s, failed 400 "a team name is required")
    else let (s', team) = create_team id (trimmed name) caller now s in (s', created team)

unfoldable pub handle_post_member :
    (String → String)
    → String
    → ℕ
    → Option String
    → Option String
    → TeamRecord
    → Store
    → Store × TeamAnswer
handle_post_member fold id now email role team s =
    if is_none (grantable_role role) then (s, bad_role) else elim (found_by fold email s) [
      | none ↦ (s, failed 404 "no account with that email — ask them to sign up first")
      | some user ↦
          if str_eq user.id team.owner_id
          then (s, failed 400 "the team owner is already a member")
          else let (s', m) = add_team_member id now team.id user.id (or_else role "") s in
            (s', joined m)
    ]

unfoldable pub handle_patch_member :
    String → ℕ → String → Option String → TeamRecord → Store → Store × TeamAnswer
handle_patch_member id now user_id role team s =
    if is_none (grantable_role role)
    then (s, bad_role)
    else if is_none (get_team_member team.id user_id s)
    then (s, failed 404 "member not found")
    else let (s', m) = add_team_member id now team.id user_id (or_else role "") s in (s', joined m)

unfoldable pub handle_team :
    (String → String) → String → ℕ → String → TeamRequest → Store → Store × TeamAnswer
handle_team fold id now caller get_teams s = (s, listed (list_teams_for_user caller s))
handle_team fold id now caller (post_team name) s = handle_post id now caller name s
handle_team fold id now caller (get_one team_id) s =
    behind_guard caller team_id (require_team_permission team_view)
      "only the team owner can do this" (λ team s'. (s', shown team (list_team_members team.id s')))
      s
handle_team fold id now caller (delete_one team_id) s =
    behind_guard caller team_id (require_team_permission team_delete)
      "only the team owner can delete it" (λ team s'. (delete_team team.id s', done)) s
handle_team fold id now caller (post_member team_id email role) s =
    behind_guard caller team_id (require_team_permission team_members_manage)
      "only the team owner can add members" (handle_post_member fold id now email role) s
handle_team fold id now caller (patch_member team_id user_id role) s =
    behind_guard caller team_id (require_team_permission team_members_manage)
      "only the team owner can change roles" (handle_patch_member id now user_id role) s
handle_team fold id now caller (delete_member team_id user_id) s =
    behind_guard caller team_id (require_team_permission_or_self team_members_manage user_id caller)
      "only the team owner can remove other members"
      (λ team s'. (remove_team_member team.id user_id s', done)) s

-- `req.body?.teamId ?? null`
pub data TeamChoice : Type 0 where
  no_team : TeamChoice
  named_team : (team_id : String) → TeamChoice
  not_text : TeamChoice

unfoldable pub attach_team : RequestAccess → Option String → Store → Store × TeamAnswer
attach_team access team_id s = elim (get_deployment_config access.deployment.view.deployment.id s) [
  | none ↦ (s, failed 404 "server config not found")
  | some config ↦
      (set_server_team config.id team_id s, shared access.deployment.view.deployment.id team_id)
]

unfoldable pub choose_team : String → RequestAccess → TeamChoice → Store → Store × TeamAnswer
choose_team caller access no_team s = attach_team access none s
choose_team caller access not_text s = (s, failed 400 "teamId must be a team id or null")
choose_team caller access (named_team team_id) s =
    if is_none (team_access_for team_id caller s)
    then (s, failed 404 "team not found")
    else attach_team access (some team_id) s

abbrev pub role_refusal : Role → String
role_refusal role =
    String.◌++◌ "your role on this server ("
      (String.◌++◌ (role_name role) ") cannot perform this action")

unfoldable pub patch_server_team : Principal → String → TeamChoice → Store → Store × TeamAnswer
patch_server_team principal deployment_id choice s =
    elim (resolve_access principal deployment_id s) [
      | none ↦ (s, failed 404 "deployment not found")
      | some access ↦
          if require_permission server_delete access
          then choose_team principal.id access choice s
          else (s, failed 403 (role_refusal access.role))
    ]
