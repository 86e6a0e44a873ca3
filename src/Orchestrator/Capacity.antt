-- ===== src/Orchestrator/Capacity.antt =====
-- What a node has, what it has promised and what is left (services/orchestrator/src/capacity.ts).
use nexus_infra.Prelude.{
  String, Bool, false, Option, none, some, List, [], ◌∷◌, ◌&&◌, ◌||◌, str_eq, if◌then◌else◌, filter,
}
use nexus_infra.Billing.Number.{Numbers, literal, max_of}
use nexus_infra.Billing.Types.{ResourceLimits}

pub record NodeRecord (Num : Type 0) : Type 0 where
  pub id : String
  pub ram_total_mb : Option Num
  pub ram_used_mb : Option Num
  pub cpu_cores : Option Num
  pub cpu_percent : Option Num

-- The parts of a deployment that are counted.
pub record PlacedServer (Num : Type 0) : Type 0 where
  pub id : String
  pub user_id : String
  pub node_id : Option String
  pub resource_limits : Option (ResourceLimits Num)

pub record NodeCapacity (Num : Type 0) : Type 0 where
  pub ram_total_mb : Option Num
  pub ram_committed_mb : Num
  pub ram_used_mb : Option Num
  pub cpu_cores_total : Option Num
  pub cpu_cores_committed : Num
  pub cpu_used_percent : Option Num

unfoldable pub same_node : Option String → String → Bool
same_node none id = false
same_node (some node_id) id = str_eq node_id id

module _ (numbers : Numbers) where
  open numbers use {Num, plus, minus, times, over, round, less}

  -- `n && n > 0`
  unfoldable pub is_positive : Option Num → Bool
  is_positive none = false
  is_positive (some n) = less (literal numbers 0) n

  unfoldable pub value : Option Num → Num
  value none = literal numbers 0
  value (some n) = n

  unfoldable pub share_of : Option Num → Option Num → Num
  share_of percent total = times (over (value percent) (literal numbers 100)) (value total)

  unfoldable pub committed_ram_mb : Option (ResourceLimits Num) → Option Num → Num
  committed_ram_mb none node_total_mb = literal numbers 0
  committed_ram_mb (some limits) node_total_mb =
      if is_positive limits.ram_mb
      then round (value limits.ram_mb)
      else if is_positive limits.ram_percent && is_positive node_total_mb
      then round (share_of limits.ram_percent node_total_mb)
      else literal numbers 0

  unfoldable pub committed_cpu_cores : Option (ResourceLimits Num) → Option Num → Num
  committed_cpu_cores none node_cores = literal numbers 0
  committed_cpu_cores (some limits) node_cores =
      if is_positive limits.cpu_cores
      then value limits.cpu_cores
      else if is_positive limits.cpu_percent && is_positive node_cores
      then share_of limits.cpu_percent node_cores
      else literal numbers 0

  unfoldable pub cores : Num → Num
  cores n = over (round (times n (literal numbers 100))) (literal numbers 100)

  unfoldable pub sum_of : (PlacedServer Num → Num) → Num → List (PlacedServer Num) → Num
  sum_of measure sum [] = sum
  sum_of measure sum (d ∷ ds) = sum_of measure (plus sum (measure d)) ds

  unfoldable pub node_capacity : NodeRecord Num → List (PlacedServer Num) → NodeCapacity Num
  node_capacity node deployments =
      let here = filter (λ d. same_node d.node_id node.id) deployments in
      record {
        ram_total_mb = node.ram_total_mb;
        ram_committed_mb =
            sum_of (λ d. committed_ram_mb d.resource_limits node.ram_total_mb) (literal numbers 0)
              here;
        ram_used_mb = node.ram_used_mb;
        cpu_cores_total = node.cpu_cores;
        cpu_cores_committed = cores (
            sum_of (λ d. committed_cpu_cores d.resource_limits node.cpu_cores) (literal numbers 0)
              here);
        cpu_used_percent = node.cpu_percent;
      }

  unfoldable pub available_ram_mb : NodeCapacity Num → Option Num
  available_ram_mb capacity = elim capacity.ram_total_mb [
    | none ↦ none
    | some total ↦ some (max_of numbers (literal numbers 0) (minus total capacity.ram_committed_mb))
  ]

  unfoldable pub available_cpu_cores : NodeCapacity Num → Option Num
  available_cpu_cores capacity = elim capacity.cpu_cores_total [
    | none ↦ none
    | some total ↦
        some (cores (max_of numbers (literal numbers 0) (minus total capacity.cpu_cores_committed)))
  ]

  unfoldable pub promises_over : Option Num → Num → Bool
  promises_over none committed = false
  promises_over (some total) committed = less total committed

  unfoldable pub is_over_committed : NodeCapacity Num → Bool
  is_over_committed capacity =
      promises_over capacity.ram_total_mb capacity.ram_committed_mb
      || promises_over capacity.cpu_cores_total capacity.cpu_cores_committed
