-- ===== src/Orchestrator/DeploymentQuery/Pages.antt =====
-- Pages cut one list (services/orchestrator/src/deploymentQuery.ts).
use nexus_infra.Prelude.{Bool, true, String, ◌≡◌, Bool, List}
use nexus_infra.Orchestrator.DeploymentQuery.{
  FilterableDeployment, DeploymentFilter, matches_filter,
}

module _ (fold : String → String) (after : String → String → Bool) where
  -- The filter does not refuse the row.
  abbrev pub IsWanted : DeploymentFilter → FilterableDeployment → Type 0
  IsWanted wanted row = matches_filter fold after wanted row ≡ true
