-- ===== src/Orchestrator/Entitlements.antt =====
-- What a plan entitles an account to, against what it has (services/orchestrator/src/entitlements.ts).
-- A ceiling is the plan's memory, none without a plan or without a ceiling.
use nexus_infra.Prelude.{
  ℕ, suc, String, Bool, false, Option, none, some, List, [], ◌∷◌, ◌&&◌, not, str_eq, if◌then◌else◌,
  filter, find, length, concat,
}
use nexus_infra.Billing.Number.{Numbers, literal, max_of}
use nexus_infra.Orchestrator.Capacity.{NodeRecord, PlacedServer, committed_ram_mb}

pub record EntitlementUsage (Num : Type 0) : Type 0 where
  pub servers : ℕ
  pub databases : ℕ
  pub ram_mb : Num
  pub uncapped_servers : ℕ

unfoldable pub is_except : Option String → String → Bool
is_except none id = false
is_except (some except_id) id = str_eq id except_id

-- `show` prints a number as a template string does.
module _ (numbers : Numbers) (show : numbers.Num → String) where
  open numbers use {Num, plus, minus, times, over, round, less, less_eq}

  unfoldable pub node_of : Option String → List (NodeRecord Num) → Option (NodeRecord Num)
  node_of none nodes = none
  node_of (some id) nodes = find (λ n. str_eq n.id id) nodes

  unfoldable pub total_of : Option (NodeRecord Num) → Option Num
  total_of none = none
  total_of (some node) = node.ram_total_mb

  unfoldable pub server_ram_mb : PlacedServer Num → List (NodeRecord Num) → Num
  server_ram_mb d nodes =
      committed_ram_mb numbers d.resource_limits (total_of (node_of d.node_id nodes))

  -- The loop of `usageFor`: the memory and the uncapped servers so far.
  unfoldable pub count_servers : List (NodeRecord Num) → List (PlacedServer Num) → Num → ℕ → Num × ℕ
  count_servers nodes [] ram_mb uncapped = (ram_mb, uncapped)
  count_servers nodes (d ∷ ds) ram_mb uncapped =
      let mb = server_ram_mb d nodes in
      if less (literal numbers 0) mb
      then count_servers nodes ds (plus ram_mb mb) uncapped
      else count_servers nodes ds ram_mb (suc uncapped)

  unfoldable pub usage_for :
      String
      → List (PlacedServer Num)
      → List (NodeRecord Num)
      → ℕ
      → Option String
      → EntitlementUsage Num
  usage_for user_id deployments nodes databases except_id =
      let own =
        filter (λ d. str_eq d.user_id user_id && not (is_except except_id d.id)) deployments in
      let counted = count_servers nodes own (literal numbers 0) 0 in
      record {
        servers = length own;
        databases = databases;
        ram_mb = counted.0;
        uncapped_servers = counted.1;
      }

  unfoldable pub gb : Num → String
  gb mb =
      if less_eq (literal numbers 1024) mb
      then concat (
          show (
            over (round (times (over mb (literal numbers 1024)) (literal numbers 10)))
              (literal numbers 10))
          ∷ " GB"
          ∷ [])
      else concat (show mb ∷ " MB" ∷ [])

  unfoldable pub ram_problem : Option Num → EntitlementUsage Num → Num → Option String
  ram_problem none usage ram_mb = none
  ram_problem (some most) usage ram_mb =
      let left = max_of numbers (literal numbers 0) (minus most usage.ram_mb) in
      if not (less (literal numbers 0) ram_mb)
      then some (
          concat (
            "your plan includes "
            ∷ gb most
            ∷ " of memory across your servers, so a server needs a memory limit"
            ∷ []))
      else if less left ram_mb
      then some (
          concat (
            "this server needs "
            ∷ gb ram_mb
            ∷ " of memory, and your plan has "
            ∷ gb left
            ∷ " of its "
            ∷ gb most
            ∷ " left"
            ∷ []))
      else none

  unfoldable pub asks_for_more : Num → Num → Bool
  asks_for_more before_mb after_mb =
      if less_eq after_mb (literal numbers 0)
      then less (literal numbers 0) before_mb
      else less (literal numbers 0) before_mb && less before_mb after_mb

  unfoldable pub ram_change_problem : Option Num → EntitlementUsage Num → Num → Num → Option String
  ram_change_problem none usage_of_others before_mb after_mb = none
  ram_change_problem (some most) usage_of_others before_mb after_mb =
      if not (asks_for_more before_mb after_mb)
      then none
      else ram_problem (some most) usage_of_others after_mb
