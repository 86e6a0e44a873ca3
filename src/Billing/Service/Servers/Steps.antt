-- ===== src/Billing/Service/Servers/Steps.antt =====
-- The runtime operations take the store along every relation that its methods keep to.
use nexus_infra.Prelude.{ℕ, String, Option, none, some}
use nexus_infra.Billing.Number.{Numbers}
use nexus_infra.Billing.Types.{
  ResourceLimits, BilledDeployment, ServerBillingRecord, OpenIntervalInput,
}
use nexus_infra.Billing.Repository.{Repo, open_interval}
use nexus_infra.Billing.Service.{Deps}
use nexus_infra.Billing.Service.Along.{Along, Allows, along_rules}
use nexus_infra.Billing.Service.Servers.{
  recover, or_recover, deployment_for, handle_deployment_created, start, start_known,
  handle_server_started, handle_server_stopped,
}

module _ (numbers : Numbers) (deps : Deps (numbers.Num))
    {R : Repo (numbers.Num) → Repo (numbers.Num) → Type 0} (allows : Allows numbers R) where
  open numbers use {Num}
  open allows use {deployment_saved, interval_closed}

  pub handle_deployment_created-Along :
      (deployment_id user_id : String) (limits : Option (ResourceLimits Num))
      → Along R (handle_deployment_created numbers deps deployment_id user_id limits)
  unfolding handle_deployment_created
  handle_deployment_created-Along deployment_id user_id limits =
      search (along_rules, deployment_saved)

  pub handle_server_stopped-Along :
      (now : ℕ) (deployment_id : String)
      → Along R (handle_server_stopped numbers deps now deployment_id)
  unfolding handle_server_stopped
  handle_server_stopped-Along now deployment_id = search (along_rules, allows, interval_closed)

  recover-Along :
      (deployment_id : String) (last : Option (ServerBillingRecord Num))
      → Along R (recover numbers deps deployment_id last)
  unfolding recover
  recover-Along deployment_id none = search (along_rules, allows)
  recover-Along deployment_id (some last) = search (along_rules, allows, deployment_saved)

  or_recover-Along :
      (deployment_id : String) (known : Option (BilledDeployment Num))
      → Along R (or_recover numbers deps deployment_id known)
  unfolding or_recover
  or_recover-Along deployment_id (some known) = search (along_rules, allows)
  or_recover-Along deployment_id none = search (along_rules, allows, recover-Along)

  pub deployment_for-Along :
      (deployment_id : String) → Along R (deployment_for numbers deps deployment_id)
  unfolding deployment_for
  deployment_for-Along deployment_id = search (along_rules, allows, or_recover-Along)

  -- Where the relation lets intervals be opened freely.
  module _
      (opened : (id : String) (now : ℕ) (input : OpenIntervalInput Num) (r : Repo Num)
        → R r (open_interval id now input r)) where
    start-Along :
        (now : ℕ) (deployment_id : String) (deployment : BilledDeployment Num)
        (running : Option (ServerBillingRecord Num))
        → Along R (start numbers deps now deployment_id deployment running)
    unfolding start
    start-Along now deployment_id deployment none = search (along_rules, allows, opened)
    start-Along now deployment_id deployment (some running) = search (along_rules, allows)

    start_known-Along :
        (now : ℕ) (deployment_id : String) (deployment : Option (BilledDeployment Num))
        → Along R (start_known numbers deps now deployment_id deployment)
    unfolding start_known
    start_known-Along now deployment_id none = search (along_rules, allows)
    start_known-Along now deployment_id (some deployment) =
        search (along_rules, allows, start-Along)

    pub handle_server_started-Along :
        (now : ℕ) (deployment_id : String)
        → Along R (handle_server_started numbers deps now deployment_id)
    unfolding handle_server_started
    handle_server_started-Along now deployment_id =
        search (along_rules, allows, deployment_for-Along, start_known-Along)
