-- ===== src/Orchestrator/Store/Nodes.antt =====
-- Nodes of the orchestrator's store (services/orchestrator/src/repository.ts).
use nexus_infra.Prelude.{
  ℕ, String, Bool, false, Option, none, some, List, if◌then◌else◌, str_eq, or_else, is_none,
  sort_by,
}
use nexus_infra.Prelude.Assoc.{lookup, insert, erase, values, drop_where, map_where}
use nexus_infra.Orchestrator.Store.Rows.{
  direct, NodeRecord, UpsertNodeInput, RegisterNodeInput, Store,
}

-- `a ?? b ?? null`
abbrev pub first_set {ℓ} : {A : Type ℓ} → Option A → Option A → Option A
first_set (some a) other = some a
first_set none other = other

-- `existing?.field ?? null`
abbrev pub of_node {ℓ} : {A : Type ℓ} → (NodeRecord → Option A) → Option NodeRecord → Option A
of_node field none = none
of_node field (some node) = field node

unfoldable pub heartbeat_row : UpsertNodeInput → Option NodeRecord → NodeRecord
heartbeat_row input existing = record {
  id = input.id;
  name = or_else (first_set input.name (of_node (λ n. some n.name) existing)) input.id;
  location = or_else input.location (of_node (λ n. n.location) existing);
  ip_address = first_set input.ip_address (of_node (λ n. n.ip_address) existing);
  agent_url = first_set input.agent_url (of_node (λ n. n.agent_url) existing);
  last_heartbeat = input.last_heartbeat;
  cpu_percent = first_set input.cpu_percent (of_node (λ n. n.cpu_percent) existing);
  cpu_cores = first_set input.cpu_cores (of_node (λ n. n.cpu_cores) existing);
  ram_used_mb = first_set input.ram_used_mb (of_node (λ n. n.ram_used_mb) existing);
  ram_total_mb = first_set input.ram_total_mb (of_node (λ n. n.ram_total_mb) existing);
  disk_used_gb = first_set input.disk_used_gb (of_node (λ n. n.disk_used_gb) existing);
  disk_total_gb = first_set input.disk_total_gb (of_node (λ n. n.disk_total_gb) existing);
  maintenance = or_else (of_node (λ n. some n.maintenance) existing) false;
  port_range_start = of_node (λ n. n.port_range_start) existing;
  port_range_end = of_node (λ n. n.port_range_end) existing;
  connection =
      or_else (first_set input.connection (of_node (λ n. some n.connection) existing)) direct;
}

unfoldable pub upsert_node : UpsertNodeInput → Store → Store × NodeRecord
upsert_node input s =
    let node = heartbeat_row input (lookup input.id s.nodes) in
    (record s { nodes = insert node.id node s.nodes }, node)

-- `le` is `a.localeCompare(b) <= 0`.
unfoldable pub list_nodes : (String → String → Bool) → Store → List NodeRecord
list_nodes le s = sort_by (λ a b. le a.id b.id) (values s.nodes)

abbrev range_start : Option (ℕ × ℕ) → Option ℕ
range_start none = none
range_start (some (start, end)) = some start

abbrev range_end : Option (ℕ × ℕ) → Option ℕ
range_end none = none
range_end (some (start, end)) = some end

unfoldable pub registered_row : RegisterNodeInput → Option NodeRecord → NodeRecord
registered_row input (some existing) = record existing {
  name = or_else input.name existing.name;
  location = or_else input.location existing.location;
  agent_url = or_else input.agent_url existing.agent_url;
  maintenance = or_else input.maintenance existing.maintenance;
  connection = or_else input.connection existing.connection;
  port_range_start = elim input.port_range [
    | none ↦ existing.port_range_start
    | some range ↦ range_start range
  ];
  port_range_end = elim input.port_range [
    | none ↦ existing.port_range_end
    | some range ↦ range_end range
  ];
}
registered_row input none = record {
  id = input.id;
  name = or_else input.name input.id;
  location = or_else input.location none;
  ip_address = none;
  agent_url = or_else input.agent_url none;
  last_heartbeat = 0;
  cpu_percent = none;
  cpu_cores = none;
  ram_used_mb = none;
  ram_total_mb = none;
  disk_used_gb = none;
  disk_total_gb = none;
  maintenance = or_else input.maintenance false;
  port_range_start = range_start (or_else input.port_range none);
  port_range_end = range_end (or_else input.port_range none);
  connection = or_else input.connection direct;
}

unfoldable pub register_node : RegisterNodeInput → Store → Store × NodeRecord
register_node input s =
    let node = registered_row input (lookup input.id s.nodes) in
    (record s { nodes = insert node.id node s.nodes }, node)

unfoldable pub is_on_node : String → Option String → Bool
is_on_node id none = false
is_on_node id (some node_id) = str_eq node_id id

unfoldable pub delete_node : String → Store → Store
delete_node id s = record s {
  deployments =
      map_where (λ d. is_on_node id d.node_id) (λ d. record d { node_id = none }) s.deployments;
  port_allocations = drop_where (λ a. str_eq a.node_id id) s.port_allocations;
  nodes = erase id s.nodes;
  link_token_hashes = erase id s.link_token_hashes;
}

unfoldable pub set_node_link_token_hash : String → String → Store → Store
set_node_link_token_hash id hash s =
    if is_none (lookup id s.nodes)
    then s
    else record s { link_token_hashes = insert id hash s.link_token_hashes }

unfoldable pub get_node_link_token_hash : String → Store → Option String
get_node_link_token_hash id s = lookup id s.link_token_hashes
