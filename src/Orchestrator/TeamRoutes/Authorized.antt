-- ===== src/Orchestrator/TeamRoutes/Authorized.antt =====
-- Who can change a team through its routes (services/orchestrator/src/teams.ts, accessGuard.ts).
use nexus_infra.Prelude.{
  ℕ, String, ◌≡◌, refl, Bool, true, false, none, some, str_eq, eq_iff, arith, ◌⊎◌, Bool-cases,
  Option-cases, inl, inr, if◌then◌else◌,
}
use nexus_infra.Orchestrator.Access.{
  TeamRelation, member, owner, TeamPermission, team_members_manage, team_delete, can_on_team,
  resolve_team_relation,
}
use nexus_infra.Orchestrator.AccessGuard.{
  TeamRequestAccess, membership_role, team_relation, team_access_for, require_team_permission,
  require_team_permission_or_self,
}
use nexus_infra.Orchestrator.Store.Rows.{TeamRecord, Store}
use nexus_infra.Orchestrator.Store.Teams.{get_team, get_team_member}
use nexus_infra.Orchestrator.TeamRoutes.{
  TeamAnswer, TeamRequest, get_teams, post_team, get_one, delete_one, post_member, patch_member,
  delete_member, behind_guard, handle_team,
}

-- The account owns the team.
abbrev pub Owns : String → String → Store → Type 0
Owns caller team_id s =
    (team : TeamRecord) × (get_team team_id s ≡ some team) × (team.owner_id ≡ caller)

-- Whom a request may let change the store.
abbrev pub MayChange : String → TeamRequest → Store → Type 0
MayChange caller get_teams s = ⊥
MayChange caller (post_team name) s = Unit
MayChange caller (get_one team_id) s = ⊥
MayChange caller (delete_one team_id) s = Owns caller team_id s
MayChange caller (post_member team_id email role) s = Owns caller team_id s
MayChange caller (patch_member team_id user_id role) s = Owns caller team_id s
MayChange caller (delete_member team_id user_id) s = Owns caller team_id s ⊎ (user_id ≡ caller)

resolve_team_relation-owner :
    (team : TeamRecord) (caller : String) (s : Store)
    → team_relation team caller s ≡ some owner
    → team.owner_id ≡ caller
unfolding team_relation resolve_team_relation
resolve_team_relation-owner team caller s e = elim (Bool-cases (str_eq caller team.owner_id)) [
  | inl own ↦ ground (arith, own, eq_iff caller team.owner_id)
  | inr other ↦
      elim (Option-cases (
        if str_eq team.owner_id caller
        then none
        else membership_role (get_team_member team.id caller s))) [
          | inl outside ↦ absurd (ground (arith, e, other, outside))
          | inr (role, inside) ↦ absurd (ground (arith, e, other, inside))
        ]
]

team_access_for-team :
    (team_id caller : String) (s : Store) (access : TeamRequestAccess)
    → team_access_for team_id caller s ≡ some access
    → (get_team team_id s ≡ some access.team)
      × (team_relation access.team caller s ≡ some access.relation)
unfolding team_access_for
team_access_for-team team_id caller s access e = elim (Option-cases (get_team team_id s)) [
  | inl gone ↦ absurd (ground (arith, e, gone))
  | inr (team, there) ↦ elim (Option-cases (team_relation team caller s)) [
    | inl outside ↦ absurd (ground (arith, e, there, outside))
    | inr (relation, stands) ↦
        let same : record { relation = relation; team = team } ≡ access =
          ground (arith, e, there, stands) in
        rw⁻¹ same (there, stands)
  ]
]

-- What only the owner is permitted.
manages-owner :
    (relation : TeamRelation) (permission : TeamPermission)
    → can_on_team (some member) permission ≡ false
    → can_on_team (some relation) permission ≡ true
    → relation ≡ owner
manages-owner member permission not_members h = absurd (ground (arith, h, not_members))
manages-owner owner permission not_members h = refl

permitted-Owns :
    (team_id caller : String) (s : Store) (permission : TeamPermission) (access : TeamRequestAccess)
    → can_on_team (some member) permission ≡ false
    → team_access_for team_id caller s ≡ some access
    → require_team_permission permission access ≡ true
    → Owns caller team_id s
unfolding require_team_permission
permitted-Owns team_id caller s permission access not_members e h =
    let (there, stands) = team_access_for-team team_id caller s access e in
    let top = manages-owner access.relation permission not_members h in
    (
      access.team,
      there,
      resolve_team_relation-owner access.team caller s (ground (arith, stands, top)),
    )

behind_guard-Permitted :
    (caller team_id : String) (permitted : TeamRequestAccess → Bool) (refusal : String)
    (handler : TeamRecord → Store → Store × TeamAnswer) (s : Store)
    → ((behind_guard caller team_id permitted refusal handler s).0 ≡ s)
      ⊎ ((access : TeamRequestAccess) × (team_access_for team_id caller s ≡ some access)
          × (permitted access ≡ true))
unfolding behind_guard
behind_guard-Permitted caller team_id permitted refusal handler s =
    elim (Option-cases (team_access_for team_id caller s)) [
      | inl outside ↦ inl (ground (arith, outside))
      | inr (access, e) ↦ elim (Bool-cases (permitted access)) [
        | inl may ↦ inr (access, e, may)
        | inr refused ↦ inl (ground (arith, e, refused))
      ]
    ]

behind_guard-same :
    (caller team_id : String) (permitted : TeamRequestAccess → Bool) (refusal : String)
    (handler : TeamRecord → Store → Store × TeamAnswer) (s : Store)
    → ((team : TeamRecord) → (handler team s).0 ≡ s)
    → (behind_guard caller team_id permitted refusal handler s).0 ≡ s
unfolding behind_guard
behind_guard-same caller team_id permitted refusal handler s reads =
    elim (Option-cases (team_access_for team_id caller s)) [
      | inl outside ↦ ground (arith, outside)
      | inr (access, e) ↦ ground (arith, e, reads access.team)
    ]

guarded :
    (caller team_id : String) (permission : TeamPermission) (refusal : String)
    (handler : TeamRecord → Store → Store × TeamAnswer) (s : Store)
    → can_on_team (some member) permission ≡ false
    → ((behind_guard caller team_id (require_team_permission permission) refusal handler s).0 ≡ s)
      ⊎ Owns caller team_id s
guarded caller team_id permission refusal handler s not_members =
    elim (behind_guard-Permitted caller team_id (require_team_permission permission) refusal handler
      s) [
        | inl same ↦ inl same
        | inr (access, e, may) ↦
            inr (permitted-Owns team_id caller s permission access not_members e may)
      ]

-- A request on teams changes the store only when it makes a new team, when the caller owns the team
-- that it addresses, or when the caller takes itself out of that team. To list and to show changes
-- nothing, whoever asks.
pub handle_team-MayChange :
    (fold : String → String) (id : String) (now : ℕ) (caller : String) (request : TeamRequest)
    (s : Store)
    → ((handle_team fold id now caller request s).0 ≡ s) ⊎ MayChange caller request s
unfolding handle_team can_on_team require_team_permission_or_self
handle_team-MayChange fold id now caller get_teams s = inl refl
handle_team-MayChange fold id now caller (post_team name) s = inr tt
handle_team-MayChange fold id now caller (get_one team_id) s =
    inl (behind_guard-same caller team_id _ _ _ s (λ team. refl))
handle_team-MayChange fold id now caller (delete_one team_id) s =
    guarded caller team_id team_delete _ _ s refl
handle_team-MayChange fold id now caller (post_member team_id email role) s =
    guarded caller team_id team_members_manage _ _ s refl
handle_team-MayChange fold id now caller (patch_member team_id user_id role) s =
    guarded caller team_id team_members_manage _ _ s refl
handle_team-MayChange fold id now caller (delete_member team_id user_id) s =
    elim (behind_guard-Permitted caller team_id
      (require_team_permission_or_self team_members_manage user_id caller) _ _ s) [
        | inl same ↦ inl same
        | inr (access, e, may) ↦ elim (Bool-cases (str_eq user_id caller)) [
          | inl self ↦ inr (inr (ground (arith, self, eq_iff user_id caller)))
          | inr other ↦ inr (
              inl (
                permitted-Owns team_id caller s team_members_manage access refl e
                  (ground (arith, may, other))))
        ]
      ]
