-- ===== src/Orchestrator/Store/Shares.antt =====
-- Servers that are shared with other accounts, in the orchestrator's store
-- (services/orchestrator/src/repository.ts).
pub mod Handed
use nexus_infra.Prelude.{
  ℕ, zero, suc, String, Bool, true, false, not, ◌&&◌, ◌||◌, Option, none, some, List, [], ◌∷◌,
  if◌then◌else◌, leb, str_eq, or_else, filter, find, sort_by, length,
}
use nexus_infra.Prelude.Assoc.{Assoc, lookup, insert, erase, values, map_where}
use nexus_infra.Orchestrator.Access.{role_name}
use nexus_infra.Orchestrator.Transfer.{RetainedShare}
use nexus_infra.Orchestrator.Store.Rows.{
  ServerSubuserRecord, CreateServerSubuserInput, ServerConfigRecord, DeploymentRecord, Store,
}
use nexus_infra.Orchestrator.Store.Nodes.{first_set}
use nexus_infra.Orchestrator.Store.Servers.{find_server}

unfoldable pub is_share : String → String → ServerSubuserRecord → Bool
is_share deployment_id email x = str_eq x.deployment_id deployment_id && str_eq x.email email

unfoldable pub get_subuser_for : String → String → Store → Option ServerSubuserRecord
get_subuser_for deployment_id email s = find (is_share deployment_id email) (values s.subusers)

-- `id` and `now` serve for a new share; one that is there keeps its own.
unfoldable pub share_row :
    String → ℕ → CreateServerSubuserInput → Option ServerSubuserRecord → ServerSubuserRecord
share_row id now input none = record {
  id = id;
  deployment_id = input.deployment_id;
  email = input.email;
  user_id = input.user_id;
  status = or_else input.status "pending";
  role = input.role;
  created_at = now;
}
share_row id now input (some existing) = record {
  id = existing.id;
  deployment_id = input.deployment_id;
  email = input.email;
  user_id = first_set input.user_id existing.user_id;
  status = or_else input.status existing.status;
  role = input.role;
  created_at = existing.created_at;
}

unfoldable pub create_subuser :
    String → ℕ → CreateServerSubuserInput → Store → Store × ServerSubuserRecord
create_subuser id now input s =
    let su = share_row id now input (get_subuser_for input.deployment_id input.email s) in
    (record s { subusers = insert su.id su s.subusers }, su)

unfoldable pub list_subusers : String → Store → List ServerSubuserRecord
list_subusers deployment_id s =
    sort_by (λ a b. leb a.created_at b.created_at)
      (filter (λ x. str_eq x.deployment_id deployment_id) (values s.subusers))

unfoldable pub get_subuser : String → Store → Option ServerSubuserRecord
get_subuser id s = lookup id s.subusers

-- An invitation to the address that is not accepted yet.
unfoldable pub is_invite : String → ServerSubuserRecord → Bool
is_invite email x = not (not (str_eq x.email email) || str_eq x.status "active")

unfoldable pub claim_subuser_invites : String → String → Store → Store × ℕ
claim_subuser_invites user_id email s = (
  record s {
    subusers =
        map_where (is_invite email) (λ x. record x { user_id = some user_id; status = "active" })
          s.subusers;
  },
  length (filter (is_invite email) (values s.subusers)),
)

unfoldable pub update_subuser_role : String → String → Store → Store × Option ServerSubuserRecord
update_subuser_role id role s = elim (lookup id s.subusers) [
  | none ↦ (s, none)
  | some current ↦ (
    record s { subusers = insert id (record current { role = role }) s.subusers },
    some (record current { role = role }),
  )
]

unfoldable pub delete_subuser : String → Store → Store
delete_subuser id s = record s { subusers = erase id s.subusers }

-- What a transfer of ownership writes; `transfer.ts` plans it.
pub record TransferOwnershipInput : Type 0 where
  pub deployment_id : String
  pub new_owner_id : String
  pub retained_share : Option RetainedShare
  pub drop_share_id : Option String

-- An id that is empty drops nothing.
unfoldable pub drop_share : Option String → Store → Store
drop_share none s = s
drop_share (some id) s = if str_eq id "" then s else delete_subuser id s

unfoldable pub retain_share : String → ℕ → String → Option RetainedShare → Store → Store
retain_share id now deployment_id none s = s
retain_share id now deployment_id (some share) s =
    (create_subuser id now
      (record {
        deployment_id = deployment_id;
        email = share.email;
        role = share.role;
        user_id = some share.user_id;
        status = some "active";
      })
      s).0

-- `id` and `now` serve for the retained share.
unfoldable pub transfer_deployment_owner :
    String → ℕ → TransferOwnershipInput → Store → Store × Option ServerConfigRecord
transfer_deployment_owner id now input s = elim (find_server input.deployment_id s) [
  | none ↦ (s, none)
  | some (deployment, config) ↦
      let next = record config { user_id = input.new_owner_id } in
      let moved = record s { configs = insert config.id next s.configs } in
      (
        retain_share id now input.deployment_id input.retained_share
            (drop_share input.drop_share_id moved),
        some next,
      )
]
