-- ===== src/Orchestrator/Store/PortTable.antt =====
-- The table of allotted host ports in the orchestrator's store (services/orchestrator/src/
-- repository.ts), where a pair of node and port belongs to one server at most.
pub mod Exclusive
pub mod History
use nexus_infra.Prelude.{
  ℕ, String, Bool, true, false, not, ◌&&◌, ◌||◌, Option, none, some, List, [], ◌∷◌, map, any,
  if◌then◌else◌, ◌==◌, leb, str_eq, filter, find, sort_by,
}
use nexus_infra.Prelude.Assoc.{Assoc, lookup, insert, erase, values, drop_where, map_where}
use nexus_infra.Orchestrator.Store.Rows.{PortAllocationRecord, Store}

-- `!wanted || wanted === found`, where the wanted id may be absent or empty.
unfoldable pub fits : Option String → String → Bool
fits none found = true
fits (some wanted) found = str_eq wanted "" || str_eq found wanted

unfoldable pub list_port_allocations :
    Option String → Option String → Store → List PortAllocationRecord
list_port_allocations node_id deployment_id s =
    sort_by (λ a b. leb a.port b.port)
      (filter (λ a. fits node_id a.node_id && fits deployment_id a.deployment_id)
        (values s.port_allocations))

-- Another server holds the port on the node.
unfoldable pub is_clash : String → String → ℕ → PortAllocationRecord → Bool
is_clash deployment_id node_id port a =
    str_eq a.node_id node_id && a.port == port && not (str_eq a.deployment_id deployment_id)

-- The first of the ports that another server holds.
unfoldable pub clash_port : String → String → List ℕ → Assoc PortAllocationRecord → Option ℕ
clash_port deployment_id node_id [] m = none
clash_port deployment_id node_id (port ∷ ports) m =
    let later = clash_port deployment_id node_id ports m in
    if any (is_clash deployment_id node_id port) (values m) then some port else later

unfoldable pub is_mine : String → PortAllocationRecord → Bool
is_mine deployment_id a = str_eq a.deployment_id deployment_id

unfoldable pub primary_of : String → Assoc PortAllocationRecord → Option ℕ
primary_of deployment_id m =
    elim (find (λ a. a.primary) (filter (is_mine deployment_id) (values m))) [
      | none ↦ none
      | some a ↦ some a.port
    ]

unfoldable pub first_port : List ℕ → Option ℕ
first_port [] = none
first_port (port ∷ ports) = some port

-- The primary port stays the one it was, while it is among the ports; else it is the first.
unfoldable pub kept_primary : Option ℕ → List ℕ → Option ℕ
kept_primary none ports = first_port ports
kept_primary (some primary) ports =
    if any (λ p. p == primary) ports then some primary else first_port ports

unfoldable pub is_port : ℕ → Option ℕ → Bool
is_port port none = false
is_port port (some primary) = port == primary

-- One row for each port, each under a random id of its own; an id that is missing is the empty text.
unfoldable pub add_ports :
    String
    → ℕ
    → String
    → Option ℕ
    → List (String × ℕ)
    → Assoc PortAllocationRecord
    → Assoc PortAllocationRecord
add_ports deployment_id now node_id primary [] m = m
add_ports deployment_id now node_id primary ((id, port) ∷ ports) m =
    add_ports deployment_id now node_id primary ports (
      insert id
        (record {
          id = id;
          node_id = node_id;
          port = port;
          deployment_id = deployment_id;
          primary = is_port port primary;
          created_at = now;
        })
        m)

abbrev pub ports_of : List (String × ℕ) → List ℕ
ports_of ports = map (λ (p : String × ℕ). p.1) ports

-- `replaced` with the new table, or the conflict that is thrown: the port and the node.
pub data PortsResult : Type 0 where
  replaced : Store → PortsResult
  conflict : (port : ℕ) (node_id : String) → PortsResult

-- For `const mine`: the rows of the server are deleted.
unfoldable pub release_ports : String → Assoc PortAllocationRecord → Assoc PortAllocationRecord
release_ports deployment_id m = drop_where (is_mine deployment_id) m

-- `if (nodeId)`
unfoldable pub node_given : Option String → Option String
node_given none = none
node_given (some node_id) = if str_eq node_id "" then none else some node_id

unfoldable pub replace_on : ℕ → String → Option String → List (String × ℕ) → Store → PortsResult
replace_on now deployment_id none ports s =
    replaced (record s { port_allocations = release_ports deployment_id s.port_allocations })
replace_on now deployment_id (some node_id) ports s =
    elim (clash_port deployment_id node_id (ports_of ports) s.port_allocations) [
      | some port ↦ conflict port node_id
      | none ↦ replaced (record s {
        port_allocations =
            add_ports deployment_id now node_id
              (kept_primary (primary_of deployment_id s.port_allocations) (ports_of ports)) ports
              (release_ports deployment_id s.port_allocations);
      })
    ]

-- The new rows have random ids, paired with their ports.
unfoldable pub replace_port_allocations :
    ℕ → String → Option String → List (String × ℕ) → Store → PortsResult
replace_port_allocations now deployment_id node_id ports s =
    replace_on now deployment_id (node_given node_id) ports s

unfoldable pub set_primary_port : String → ℕ → Store → Store × Bool
set_primary_port deployment_id port s =
    if any (λ a. a.port == port) (filter (is_mine deployment_id) (values s.port_allocations))
    then (
      record s {
        port_allocations =
            map_where (is_mine deployment_id) (λ a. record a { primary = a.port == port })
              s.port_allocations;
      },
      true,
    )
    else (s, false)
