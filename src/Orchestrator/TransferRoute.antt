-- ===== src/Orchestrator/TransferRoute.antt =====
-- The route that hands a server to another account (services/orchestrator/src/api.ts): planning by
-- transfer.ts, writing by the store. Who is asked for in the body is found before; `id` and `now`
-- serve for the share that is kept, `event_id` for the event.
pub mod Kept
pub mod Owned
pub mod Written
use nexus_infra.Prelude.{ℕ, String, Option, none, some, List, [], ◌∷◌}
use nexus_infra.Orchestrator.Transfer.{
  Account, RetainRole, TransferPlan, TransferResult, planned, refused, TransferInput, plan_transfer,
}
use nexus_infra.Orchestrator.Store.Rows.{
  UserRecord, ServerSubuserRecord, ServerConfigRecord, DeploymentView, Store,
}
use nexus_infra.Orchestrator.Store.Accounts.{get_user}
use nexus_infra.Orchestrator.Store.Servers.{append_deployment_event}
use nexus_infra.Orchestrator.Store.Shares.{
  get_subuser_for, TransferOwnershipInput, transfer_deployment_owner,
}

pub data RouteAnswer : Type 0 where
  answered : (owner_id : String) → RouteAnswer
  failed : (status : ℕ) (error : String) → RouteAnswer

unfoldable pub account_of : UserRecord → Account
account_of user = record { id = user.id; email = user.email }

unfoldable pub account_found : Option UserRecord → Option Account
account_found none = none
account_found (some user) = some (account_of user)

unfoldable pub share_id : Option ServerSubuserRecord → Option String
share_id none = none
share_id (some x) = some x.id

unfoldable pub transfer_input : DeploymentView → UserRecord → RetainRole → Store → TransferInput
transfer_input server new_owner retain_role s = record {
  current_owner = account_found (get_user server.user_id s);
  new_owner = account_of new_owner;
  retain_role = retain_role;
  existing_share_for_new_owner = share_id (get_subuser_for server.deployment.id new_owner.email s);
}

unfoldable pub write_transfer :
    (id event_id : String) (now : ℕ) → DeploymentView → TransferPlan → Store → Store × RouteAnswer
write_transfer id event_id now server plan s =
    let (s', config) =
      transfer_deployment_owner id now
        (record {
          deployment_id = server.deployment.id;
          new_owner_id = plan.new_owner_id;
          retained_share = plan.retained_share;
          drop_share_id = plan.drop_share_id;
        })
        s in
    elim config [
      | none ↦ (s', failed 404 "deployment not found")
      | some c ↦ (
        append_deployment_event event_id now server.deployment.id "ownership-transferred"
            plan.audit_message s',
        answered c.user_id,
      )
    ]

unfoldable pub transfer_server :
    (id event_id : String) (now : ℕ)
    → DeploymentView
    → Option UserRecord
    → RetainRole
    → Store
    → Store × RouteAnswer
transfer_server id event_id now server none retain_role s =
    (s, failed 404 "no account with that email — ask them to sign up first")
transfer_server id event_id now server (some new_owner) retain_role s =
    elim (plan_transfer (transfer_input server new_owner retain_role s)) [
      | refused status error ↦ (s, failed status error)
      | planned plan ↦ write_transfer id event_id now server plan s
    ]
