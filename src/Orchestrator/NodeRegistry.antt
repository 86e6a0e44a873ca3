-- ===== src/Orchestrator/NodeRegistry.antt =====
-- Heartbeats of nodes (services/orchestrator/src/nodeRegistry.ts). Times are in milliseconds; a
-- heartbeat is its decoded payload, and one without resources has none in each of their fields.
use nexus_infra.Prelude.{ℕ, ◌-◌, String, Option, none, some, if◌then◌else◌, leb, str_eq, or_else}
use nexus_infra.Orchestrator.Store.Rows.{
  NodeConnection, outbound, NodeRecord, UpsertNodeInput, Store,
}
use nexus_infra.Orchestrator.Store.Nodes.{upsert_node}

pub data NodeHealth : Type 0 where
  healthy : NodeHealth
  degraded : NodeHealth
  offline : NodeHealth

abbrev pub degraded_ms : ℕ
degraded_ms = 3000

abbrev pub offline_ms : ℕ
offline_ms = 10000

unfoldable pub node_health : NodeRecord → ℕ → NodeHealth
node_health node now =
    let age = now - node.last_heartbeat in
    if leb offline_ms age then offline else if leb degraded_ms age then degraded else healthy

pub record NodeHeartbeatPayload : Type 0 where
  pub node_id : Option String
  pub timestamp : Option ℕ
  pub agent_url : Option String
  pub connection : Option String
  pub cpu_percent : Option String
  pub cpu_cores : Option String
  pub ram_used_mb : Option String
  pub ram_total_mb : Option String
  pub disk_used_gb : Option String
  pub disk_total_gb : Option String

unfoldable pub outbound_only : Option String → Option NodeConnection
outbound_only none = none
outbound_only (some text) = if str_eq text "outbound" then some outbound else none

unfoldable pub heartbeat_input : String → ℕ → NodeHeartbeatPayload → UpsertNodeInput
heartbeat_input node_id now payload = record {
  id = node_id;
  name = none;
  location = none;
  ip_address = none;
  agent_url = payload.agent_url;
  last_heartbeat = or_else payload.timestamp now;
  cpu_percent = payload.cpu_percent;
  cpu_cores = payload.cpu_cores;
  ram_used_mb = payload.ram_used_mb;
  ram_total_mb = payload.ram_total_mb;
  disk_used_gb = payload.disk_used_gb;
  disk_total_gb = payload.disk_total_gb;
  connection = outbound_only payload.connection;
}

unfoldable pub beat : ℕ → Option String → NodeHeartbeatPayload → Store → Store
beat now none payload s = s
beat now (some node_id) payload s =
    if str_eq node_id "" then s else (upsert_node (heartbeat_input node_id now payload) s).0

unfoldable pub handle_heartbeat : String → ℕ → NodeHeartbeatPayload → Store → Store
handle_heartbeat type now payload s =
    if str_eq type "heartbeat.node" then beat now payload.node_id payload s else s
