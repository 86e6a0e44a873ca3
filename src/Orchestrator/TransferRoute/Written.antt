-- ===== src/Orchestrator/TransferRoute/Written.antt =====
-- What a transfer writes (services/orchestrator/src/api.ts, transfer.ts and repository.ts together).
use nexus_infra.Prelude.{
  ℕ, String, ◌≡◌, refl, ◌∙◌, true, false, Option, none, some, arith, ◌⊎◌, inl, inr,
}
use nexus_infra.Prelude.Assoc.{insert}
use nexus_infra.Orchestrator.Access.{role_name, Role, server_delete, can}
use nexus_infra.Orchestrator.Transfer.{
  Account, RetainRole, TransferPlan, TransferResult, planned, refused, keeps, kept_role,
  plan_transfer,
}
use nexus_infra.Orchestrator.Transfer.Handover.{kept_role-cannot}
use nexus_infra.Orchestrator.Store.Rows.{
  UserRecord, ServerConfigRecord, DeploymentRecord, DeploymentView, Store,
}
use nexus_infra.Orchestrator.Store.Accounts.{get_user}
use nexus_infra.Orchestrator.Store.Servers.{find_server, append_deployment_event}
use nexus_infra.Orchestrator.Store.Shares.{
  get_subuser_for, drop_share, retain_share, transfer_deployment_owner,
}
use nexus_infra.Orchestrator.Store.Shares.Handed.{IsKeyed, drop_share-IsKeyed}
use nexus_infra.Orchestrator.TransferRoute.{
  answered, failed, account_of, account_found, transfer_input, write_transfer, transfer_server,
}
use nexus_infra.Orchestrator.TransferRoute.Kept.{
  HoldsRole, retain_share-HoldsRole, KeepsRole, plan_transfer-KeepsRole,
}
use nexus_infra.Orchestrator.TransferRoute.Owned.{IsOwnedBy, transferred-IsOwnedBy}

TransferResult-cases :
    (r : TransferResult)
    → ((plan : TransferPlan) × (r ≡ planned plan))
      ⊎ ((status : ℕ) × (error : String) × (r ≡ refused status error))
TransferResult-cases (planned plan) = inl (plan, refl)
TransferResult-cases (refused status error) = inr (status, error, refl)

write_transfer-store :
    (id event_id : String) (now : ℕ) (server : DeploymentView) (plan : TransferPlan) (s : Store)
    (deployment : DeploymentRecord) (config : ServerConfigRecord)
    → find_server server.deployment.id s ≡ some (deployment, config)
    → write_transfer id event_id now server plan s ≡ (
      append_deployment_event event_id now server.deployment.id "ownership-transferred"
          plan.audit_message
          (retain_share id now server.deployment.id plan.retained_share (
            drop_share plan.drop_share_id (record s {
              configs = insert config.id (record config { user_id = plan.new_owner_id }) s.configs;
            }))),
      answered plan.new_owner_id,
    )
unfolding write_transfer transfer_deployment_owner
write_transfer-store id event_id now server plan s deployment config found = ground (arith, found)

transfer_server-planned :
    (id event_id : String) (now : ℕ) (server : DeploymentView) (new_owner : UserRecord)
    (retain_role : RetainRole) (s : Store) (plan : TransferPlan)
    → plan_transfer (transfer_input server new_owner retain_role s) ≡ planned plan
    → transfer_server id event_id now server (some new_owner) retain_role s
      ≡ write_transfer id event_id now server plan s
unfolding transfer_server
transfer_server-planned id event_id now server new_owner retain_role s plan p = ground (arith, p)

transfer_server-refused :
    (id event_id : String) (now : ℕ) (server : DeploymentView) (new_owner : UserRecord)
    (retain_role : RetainRole) (s : Store) (status : ℕ) (error : String)
    → plan_transfer (transfer_input server new_owner retain_role s) ≡ refused status error
    → (transfer_server id event_id now server (some new_owner) retain_role s).1
      ≡ failed status error
unfolding transfer_server
transfer_server-refused id event_id now server new_owner retain_role s status error p =
    ground (arith, p)

-- The previous owner's account holds the role that was asked for, which cannot delete the server.
abbrev pub StepsDown : DeploymentView → RetainRole → Store → Store → Type 0
StepsDown server retain_role s s' =
    (previous : UserRecord) × (role : Role) × (get_user server.user_id s ≡ some previous)
    × (kept_role retain_role ≡ some role)
    × HoldsRole server.deployment.id previous role s'
    × (can (some role) server_delete ≡ false)

account_found-cases :
    (user : Option UserRecord) (owner : Account)
    → account_found user ≡ some owner
    → (previous : UserRecord) × (user ≡ some previous) × (account_of previous ≡ owner)
unfolding account_found
account_found-cases none owner h = absurd (ground (arith, h))
account_found-cases (some previous) owner h = (previous, refl, ground (arith, h))

handed_over :
    (id event_id : String) (now : ℕ) (server : DeploymentView) (new_owner : UserRecord)
    (retain_role : RetainRole) (s : Store) (deployment : DeploymentRecord)
    (config : ServerConfigRecord) (plan : TransferPlan)
    → find_server server.deployment.id s ≡ some (deployment, config)
    → config.id ≡ deployment.server_config_id
    → IsKeyed s.subusers
    → KeepsRole (transfer_input server new_owner retain_role s) plan
    → IsOwnedBy server.deployment.id new_owner.id deployment
        (write_transfer id event_id now server plan s).0
      × StepsDown server retain_role s (write_transfer id event_id now server plan s).0
unfolding append_deployment_event transfer_input account_of find_server get_subuser_for
handed_over id event_id now server new_owner retain_role s deployment config plan found own keyed
      k =
    let (previous, there, same) = account_found-cases (get_user server.user_id s) k.owner k.owned in
    let next = record config { user_id = new_owner.id } in
    let moved = record s { configs = insert config.id next s.configs } in
    let share : plan.retained_share
        ≡ some (record { email = previous.email; user_id = previous.id; role = role_name k.role }) =
      k.share ∙ ground (arith, same) in
    rw (write_transfer-store id event_id now server plan s deployment config found, k.moved, share)
      (
        transferred-IsOwnedBy id now server.deployment.id
            (some
              (record { email = previous.email; user_id = previous.id; role = role_name k.role }))
            plan.drop_share_id s deployment config new_owner.id found own,
        (
          previous,
          k.role,
          there,
          k.asked,
          retain_share-HoldsRole id now server.deployment.id previous k.role
              (drop_share plan.drop_share_id moved)
              (drop_share-IsKeyed plan.drop_share_id moved keyed),
          rw⁻¹ k.asked (kept_role-cannot retain_role),
        ),
      )

-- When the transfer of a server that is there is carried out with a role to keep for its previous
-- owner: the server belongs to the new owner, as is answered; and the previous owner's account,
-- which then still exists, has an active share of it with exactly the role that was asked for, which
-- is not one that may delete the server.
pub transfer_server-hands_over :
    (id event_id : String) (now : ℕ) (server : DeploymentView) (new_owner : UserRecord)
    (retain_role : RetainRole) (s : Store) (deployment : DeploymentRecord)
    (config : ServerConfigRecord) (owner_id : String)
    → find_server server.deployment.id s ≡ some (deployment, config)
    → config.id ≡ deployment.server_config_id
    → IsKeyed s.subusers
    → keeps retain_role ≡ true
    → (transfer_server id event_id now server (some new_owner) retain_role s).1 ≡ answered owner_id
    → (owner_id ≡ new_owner.id)
      × IsOwnedBy server.deployment.id new_owner.id deployment
          (transfer_server id event_id now server (some new_owner) retain_role s).0
      × StepsDown server retain_role s
          (transfer_server id event_id now server (some new_owner) retain_role s).0
transfer_server-hands_over id event_id now server new_owner retain_role s deployment config owner_id
      found own keyed kept done =
    let input = transfer_input server new_owner retain_role s in
    elim (TransferResult-cases (plan_transfer input)) [
      | inr (status, error, p) ↦
          let no =
            transfer_server-refused id event_id now server new_owner retain_role s status error p in
          absurd (ground (arith, done, no))
      | inl (plan, p) ↦
          let run = transfer_server-planned id event_id now server new_owner retain_role s plan p in
          let k = plan_transfer-KeepsRole input plan p (unfold transfer_input in kept) in
          let written =
            write_transfer-store id event_id now server plan s deployment config found in
          let (owned, down) =
            handed_over id event_id now server new_owner retain_role s deployment config plan found
              own keyed k in
          let moved : plan.new_owner_id ≡ new_owner.id =
            unfold transfer_input account_of in k.moved in
          (ground (arith, done, run, written, moved), rw run owned, rw run down)
    ]
