-- ===== src/Orchestrator/Store/Teams.antt =====
-- Teams of the orchestrator's store (services/orchestrator/src/repository.ts).
use nexus_infra.Prelude.{
  ℕ, String, Bool, false, ◌&&◌, ◌||◌, Option, none, some, List, map, any, str_eq, filter, find,
}
use nexus_infra.Prelude.Assoc.{lookup, insert, erase, values, drop_where, map_where}
use nexus_infra.Orchestrator.Store.Rows.{TeamRecord, TeamMemberRecord, TeamMemberView, Store}

unfoldable pub create_team : String → String → String → ℕ → Store → Store × TeamRecord
create_team id name owner_id now s =
    let team : TeamRecord = record {
      id = id;
      name = name;
      owner_id = owner_id;
      created_at = now;
    } in
    (record s { teams = insert id team s.teams }, team)

unfoldable pub get_team : String → Store → Option TeamRecord
get_team id s = lookup id s.teams

-- The teams that an account belongs to.
unfoldable pub teams_of : String → Store → List String
teams_of user_id s =
    map (λ (m : TeamMemberRecord). m.team_id)
      (filter (λ m. str_eq m.user_id user_id) (values s.team_members))

-- `set.has(id)`
abbrev pub contains : String → List String → Bool
contains id ids = any (λ x. str_eq x id) ids

unfoldable pub list_teams_for_user : String → Store → List TeamRecord
list_teams_for_user user_id s =
    filter (λ t. str_eq t.owner_id user_id || contains t.id (teams_of user_id s)) (values s.teams)

unfoldable pub is_of_team : String → Option String → Bool
is_of_team id none = false
is_of_team id (some team_id) = str_eq team_id id

unfoldable pub delete_team : String → Store → Store
delete_team id s = record s {
  team_members = drop_where (λ m. str_eq m.team_id id) s.team_members;
  configs = map_where (λ c. is_of_team id c.team_id) (λ c. record c { team_id = none }) s.configs;
  teams = erase id s.teams;
}

unfoldable pub is_membership : String → String → TeamMemberRecord → Bool
is_membership team_id user_id m = str_eq m.team_id team_id && str_eq m.user_id user_id

unfoldable pub get_team_member : String → String → Store → Option TeamMemberRecord
get_team_member team_id user_id s = find (is_membership team_id user_id) (values s.team_members)

-- `id` and `now` serve for a new member; one that is there keeps its own.
unfoldable pub member_row :
    String → ℕ → String → String → String → Option TeamMemberRecord → TeamMemberRecord
member_row id now team_id user_id role none = record {
  id = id;
  team_id = team_id;
  user_id = user_id;
  role = role;
  created_at = now;
}
member_row id now team_id user_id role (some existing) = record {
  id = existing.id;
  team_id = team_id;
  user_id = user_id;
  role = role;
  created_at = existing.created_at;
}

unfoldable pub add_team_member :
    String → ℕ → String → String → String → Store → Store × TeamMemberRecord
add_team_member id now team_id user_id role s =
    let member = member_row id now team_id user_id role (get_team_member team_id user_id s) in
    (record s { team_members = insert member.id member s.team_members }, member)

unfoldable pub view_member : Store → TeamMemberRecord → TeamMemberView
view_member s m = elim (lookup m.user_id s.users) [
  | none ↦ record { member = m; email = ""; display_name = m.user_id }
  | some user ↦ record { member = m; email = user.email; display_name = user.display_name }
]

unfoldable pub list_team_members : String → Store → List TeamMemberView
list_team_members team_id s =
    map (view_member s) (filter (λ m. str_eq m.team_id team_id) (values s.team_members))

unfoldable pub remove_team_member : String → String → Store → Store
remove_team_member team_id user_id s = record s {
  team_members = drop_where (is_membership team_id user_id) s.team_members;
}

unfoldable pub set_server_team : String → Option String → Store → Store
set_server_team server_config_id team_id s = elim (lookup server_config_id s.configs) [
  | none ↦ s
  | some config ↦ record s {
    configs = insert server_config_id (record config { team_id = team_id }) s.configs;
  }
]
