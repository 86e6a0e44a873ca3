-- ===== src/Orchestrator/Access.antt =====
-- Who may do what to one server or one team (services/orchestrator/src/access.ts).
pub mod Roles
use nexus_infra.Prelude.{
  ℕ, String, Bool, true, false, Option, none, some, List, [], ◌∷◌, ◌++◌, ◌||◌, str_eq,
  if◌then◌else◌, any, find, ltb,
}
use nexus_infra.Orchestrator.Users.{PlatformRole}

pub data Role : Type 0 where
  viewer : Role
  operator : Role
  admin : Role
  owner : Role

-- A role, as the word that stands for it.
unfoldable pub role_name : Role → String
role_name viewer = "viewer"
role_name operator = "operator"
role_name admin = "admin"
role_name owner = "owner"

-- `ROLES.indexOf(role)`
unfoldable pub rank : Role → ℕ
rank viewer = 0
rank operator = 1
rank admin = 2
rank owner = 3

abbrev pub roles : List Role
roles = viewer ∷ operator ∷ admin ∷ owner ∷ []

abbrev pub grantable_roles : List Role
grantable_roles = viewer ∷ operator ∷ admin ∷ []

pub data Permission : Type 0 where
  server_view : Permission
  server_logs : Permission
  server_stats : Permission
  control_start : Permission
  control_stop : Permission
  control_restart : Permission
  console_exec : Permission
  console_connect : Permission
  file_read : Permission
  file_write : Permission
  database_manage : Permission
  backup_manage : Permission
  schedule_manage : Permission
  subuser_manage : Permission
  server_edit : Permission
  server_transfer : Permission
  server_delete : Permission

unfoldable pub permission_name : Permission → String
permission_name server_view = "server.view"
permission_name server_logs = "server.logs"
permission_name server_stats = "server.stats"
permission_name control_start = "control.start"
permission_name control_stop = "control.stop"
permission_name control_restart = "control.restart"
permission_name console_exec = "console.exec"
permission_name console_connect = "console.connect"
permission_name file_read = "file.read"
permission_name file_write = "file.write"
permission_name database_manage = "database.manage"
permission_name backup_manage = "backup.manage"
permission_name schedule_manage = "schedule.manage"
permission_name subuser_manage = "subuser.manage"
permission_name server_edit = "server.edit"
permission_name server_transfer = "server.transfer"
permission_name server_delete = "server.delete"

unfoldable pub viewer_permissions : List Permission
viewer_permissions = server_view ∷ server_logs ∷ server_stats ∷ []

unfoldable pub operator_permissions : List Permission
operator_permissions =
    viewer_permissions
    ++ control_start ∷ control_stop ∷ control_restart ∷ console_exec ∷ console_connect ∷ file_read
      ∷ []

unfoldable pub admin_permissions : List Permission
admin_permissions =
    operator_permissions
    ++ file_write ∷ database_manage ∷ backup_manage ∷ schedule_manage ∷ subuser_manage ∷ server_edit
      ∷ []

unfoldable pub owner_permissions : List Permission
owner_permissions = admin_permissions ++ server_transfer ∷ server_delete ∷ []

unfoldable pub role_permissions : Role → List Permission
role_permissions viewer = viewer_permissions
role_permissions operator = operator_permissions
role_permissions admin = admin_permissions
role_permissions owner = owner_permissions

unfoldable pub same_permission : Permission → Permission → Bool
same_permission p q = str_eq (permission_name p) (permission_name q)

unfoldable pub can : Option Role → Permission → Bool
can none p = false
can (some role) p = any (same_permission p) (role_permissions role)

unfoldable pub is_role : String → Bool
is_role value = any (λ role. str_eq (role_name role) value) roles

-- The role that a stored word grants, when `isGrantableRole` holds of it.
unfoldable pub grantable_role : Option String → Option Role
grantable_role none = none
grantable_role (some value) = find (λ role. str_eq (role_name role) value) grantable_roles

unfoldable pub stronger : Option Role → Option Role → Option Role
stronger best none = best
stronger none (some role) = some role
stronger (some best) (some role) = if ltb (rank best) (rank role) then some role else some best

-- The loop of `strongestRole`, from the best role so far.
unfoldable pub strongest_from : Option Role → List (Option Role) → Option Role
strongest_from best [] = best
strongest_from best (role ∷ rest) = strongest_from (stronger best role) rest

unfoldable pub strongest_role : List (Option Role) → Option Role
strongest_role given = strongest_from none given

pub data TeamRelation : Type 0 where
  member : TeamRelation
  owner : TeamRelation

pub data TeamPermission : Type 0 where
  team_view : TeamPermission
  team_members_manage : TeamPermission
  team_delete : TeamPermission

unfoldable pub can_on_team : Option TeamRelation → TeamPermission → Bool
can_on_team none p = false
can_on_team (some TeamRelation.owner) p = true
can_on_team (some member) team_view = true
can_on_team (some member) p = false

pub record TeamAccessInput : Type 0 where
  pub principal_id : String
  pub owner_id : String
  pub membership : Option String

unfoldable pub resolve_team_relation : TeamAccessInput → Option TeamRelation
resolve_team_relation input =
    if str_eq input.principal_id input.owner_id
    then some TeamRelation.owner
    else elim input.membership [ none ↦ none | some role ↦ some member ]

pub record AccessInput : Type 0 where
  pub principal_id : String
  pub platform_role : PlatformRole
  pub owner_id : String
  pub grant : Option String
  pub membership : Option String

unfoldable pub administers : PlatformRole → Bool
administers PlatformRole.owner = true
administers PlatformRole.admin = true
administers PlatformRole.user = false

unfoldable pub resolve_role : AccessInput → Option Role
resolve_role input =
    if administers input.platform_role
    then some Role.owner
    else if str_eq input.principal_id input.owner_id
    then some Role.owner
    else strongest_role (grantable_role input.grant ∷ grantable_role input.membership ∷ [])
