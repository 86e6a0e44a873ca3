-- ===== src/Orchestrator/TeamTests.antt =====
-- Tests and an instance of the theorem about the routes of teams.
use nexus_infra.Prelude.{◌≡◌, refl, [], ◌∷◌, ◌⊎◌}
use nexus_infra.Prelude.Assoc.{lookup, drop_where}
use nexus_infra.Orchestrator.Access.{can_on_team, resolve_team_relation}
use nexus_infra.Orchestrator.AccessGuard.{
  team_relation, team_access_for, require_team_permission, require_team_permission_or_self,
}
use nexus_infra.Orchestrator.Store.Rows.{Store, empty_store}
use nexus_infra.Orchestrator.Store.Teams.{
  get_team, get_team_member, is_membership, remove_team_member,
}
use nexus_infra.Orchestrator.TeamRoutes.{
  delete_one, delete_member, done, failed, behind_guard, handle_team,
}
use nexus_infra.Orchestrator.TeamRoutes.Authorized.{MayChange, handle_team-MayChange}

-- "o" owns the team, "m" is a member of it.
abbrev with_team : Store
with_team = record empty_store {
  teams = ("t", record { id = "t"; name = "crew"; owner_id = "o"; created_at = 1 }) ∷ [];
  team_members =
      ("1", record { id = "1"; team_id = "t"; user_id = "m"; role = "viewer"; created_at = 2 })
      ∷ [];
}

member_leaves :
    handle_team (λ e. e) "2" 3 "m" (delete_member "t" "m") with_team
    ≡ (record with_team { team_members = [] }, done)
unfolding handle_team behind_guard team_access_for team_relation require_team_permission_or_self
    require_team_permission can_on_team resolve_team_relation get_team get_team_member is_membership
    remove_team_member lookup drop_where empty_store
member_leaves = refl

member_cannot_delete :
    handle_team (λ e. e) "2" 3 "m" (delete_one "t") with_team
    ≡ (with_team, failed 403 "only the team owner can delete it")
unfolding handle_team behind_guard team_access_for team_relation require_team_permission can_on_team
    resolve_team_relation get_team get_team_member is_membership lookup empty_store
member_cannot_delete = refl

stranger_sees_none :
    handle_team (λ e. e) "2" 3 "x" (delete_one "t") with_team
    ≡ (with_team, failed 404 "team not found")
unfolding handle_team behind_guard team_access_for team_relation resolve_team_relation get_team
    get_team_member is_membership lookup empty_store
stranger_sees_none = refl

handle_team-MayChange_example :
    ((handle_team (λ e. e) "2" 3 "m" (delete_member "t" "m") with_team).0 ≡ with_team)
    ⊎ MayChange "m" (delete_member "t" "m") with_team
handle_team-MayChange_example =
    handle_team-MayChange (λ e. e) "2" 3 "m" (delete_member "t" "m") with_team
