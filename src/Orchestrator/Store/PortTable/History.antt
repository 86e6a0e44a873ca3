-- ===== src/Orchestrator/Store/PortTable/History.antt =====
-- Histories of the table of ports, and what a refusal means (services/orchestrator/src/repository.ts).
use nexus_infra.Prelude.{
  ℕ, String, str_eq, ◌≡◌, refl, true, Option, none, some, List, [], ◌∷◌, any, ◌≢◌, eq_iff, arith,
  Bool-cases, Option-cases, ◌⊎◌, inl, inr,
}
use nexus_infra.Prelude.Assoc.{Assoc, lookup, values}
use nexus_infra.Prelude.Rows.{any-IsRow, IsRow}
use nexus_infra.Orchestrator.Store.Rows.{PortAllocationRecord, Store}
use nexus_infra.Orchestrator.Store.Nodes.{delete_node}
use nexus_infra.Orchestrator.Store.Servers.{delete_deployment}
use nexus_infra.Orchestrator.Store.PortTable.Exclusive.{
  IsExclusive, drop_where-IsExclusive, replace_port_allocations-IsExclusive,
  set_primary_port-IsExclusive,
}
use nexus_infra.Orchestrator.Store.PortTable.{
  is_clash, clash_port, ports_of, replace_on, node_given, PortsResult, replaced, conflict,
  replace_port_allocations, set_primary_port,
}

delete_deployment-IsExclusive :
    (id : String) (s : Store)
    → IsExclusive s.port_allocations
    → IsExclusive (delete_deployment id s).port_allocations
unfolding delete_deployment
delete_deployment-IsExclusive id s x = elim (Option-cases (lookup id s.deployments)) [
  | inl unknown ↦ rw (unknown, delete_deployment) x
  | inr (deployment, found) ↦
      rw (found, delete_deployment) (drop_where-IsExclusive _ s.port_allocations x)
]

-- What changes the table of ports.
pub data PortEvent : Type 0 where
  replaces :
      (now : ℕ) (deployment_id : String) (node_id : Option String) (ports : List (String × ℕ))
      → PortEvent
  sets_primary : (deployment_id : String) (port : ℕ) → PortEvent
  deletes_node : (id : String) → PortEvent
  deletes_server : (id : String) → PortEvent

-- A conflict leaves the store as it was.
unfoldable pub after_ports : PortsResult → Store → Store
after_ports (replaced s') s = s'
after_ports (conflict port node_id) s = s

unfoldable pub after_port_event : PortEvent → Store → Store
after_port_event (replaces now deployment_id node_id ports) s =
    after_ports (replace_port_allocations now deployment_id node_id ports s) s
after_port_event (sets_primary deployment_id port) s = (set_primary_port deployment_id port s).0
after_port_event (deletes_node id) s = delete_node id s
after_port_event (deletes_server id) s = delete_deployment id s

unfoldable pub after_port_events : List PortEvent → Store → Store
after_port_events [] s = s
after_port_events (e ∷ es) s = after_port_events es (after_port_event e s)

PortsResult-cases :
    (r : PortsResult)
    → ((s : Store) × (r ≡ replaced s))
      ⊎ ((port : ℕ) × (node_id : String) × (r ≡ conflict port node_id))
PortsResult-cases (replaced s) = inl (s, refl)
PortsResult-cases (conflict port node_id) = inr (port, node_id, refl)

after_port_event-IsExclusive :
    (e : PortEvent) (s : Store)
    → IsExclusive s.port_allocations
    → IsExclusive (after_port_event e s).port_allocations
unfolding after_port_event after_ports delete_node
after_port_event-IsExclusive (replaces now deployment_id node_id ports) s x =
    let result = replace_port_allocations now deployment_id node_id ports s in
    elim (PortsResult-cases result) [
      | inl (s', done) ↦
          rw (done, after_ports)
            (replace_port_allocations-IsExclusive now deployment_id node_id ports s s' done x)
      | inr (port, node, clash) ↦ rw (clash, after_ports) x
    ]
after_port_event-IsExclusive (sets_primary deployment_id port) s x =
    set_primary_port-IsExclusive deployment_id port s x
after_port_event-IsExclusive (deletes_node id) s x = drop_where-IsExclusive _ s.port_allocations x
after_port_event-IsExclusive (deletes_server id) s x = delete_deployment-IsExclusive id s x

-- Whatever sequence of replacing a server's ports, choosing its primary port, and deleting servers
-- and nodes the store goes through, starting with a table that gives no port of a node to two
-- servers: the table never does. The random ids of the rows may even clash.
pub after_port_events-IsExclusive :
    (es : List PortEvent) (s : Store)
    → IsExclusive s.port_allocations
    → IsExclusive (after_port_events es s).port_allocations
unfolding after_port_events
after_port_events-IsExclusive [] s x = x
after_port_events-IsExclusive (e ∷ es) s x =
    after_port_events-IsExclusive es (after_port_event e s) (after_port_event-IsExclusive e s x)

clash_port-IsRow :
    (deployment_id node_id : String) (ports : List ℕ) (m : Assoc PortAllocationRecord) (port : ℕ)
    → clash_port deployment_id node_id ports m ≡ some port
    → (a : PortAllocationRecord) × IsRow a m × (is_clash deployment_id node_id port a ≡ true)
unfolding clash_port
clash_port-IsRow deployment_id node_id [] m port h = absurd (ground (arith, h))
clash_port-IsRow deployment_id node_id (p ∷ ports) m port h =
    elim (Bool-cases (any (is_clash deployment_id node_id p) (values m))) [
      | inl held ↦
          let same : p ≡ port = ground (arith, h, held) in
          let (a, row, clash) = any-IsRow (is_clash deployment_id node_id p) m held in
          (a, row, rw⁻¹ same clash)
      | inr free ↦ clash_port-IsRow deployment_id node_id ports m port (ground (arith, h, free))
    ]

-- A server is refused its ports only for a port of its node that is in the table for another server.
pub conflict-IsRow :
    (now : ℕ) (deployment_id : String) (node_id : Option String) (ports : List (String × ℕ))
    (s : Store) (port : ℕ) (node : String)
    → replace_port_allocations now deployment_id node_id ports s ≡ conflict port node
    → (node_id ≡ some node)
      × ((a : PortAllocationRecord) × IsRow a s.port_allocations
          × (a.node_id ≡ node)
          × (a.port ≡ port)
          × (a.deployment_id ≢ deployment_id))
unfolding replace_port_allocations replace_on node_given is_clash
conflict-IsRow now deployment_id none ports s port node h = absurd (ground (arith, h))
conflict-IsRow now deployment_id (some n) ports s port node h = elim (Bool-cases (str_eq n "")) [
  | inl blank ↦ absurd (ground (arith, h, blank))
  | inr given ↦
      elim (Option-cases (clash_port deployment_id n (ports_of ports) s.port_allocations)) [
        | inl free ↦ absurd (ground (arith, h, given, free))
        | inr (p, held) ↦
            let at : n ≡ node = ground (arith, h, given, held) in
            let by : p ≡ port = ground (arith, h, given, held) in
            let (a, row, clash) =
              clash_port-IsRow deployment_id n (ports_of ports) s.port_allocations p held in
            (
              ground (arith, at),
              (
                a,
                row,
                ground (arith, clash, at, eq_iff a.node_id n),
                ground (arith, clash, by),
                λ same. absurd (ground (arith, clash, same, eq_iff a.deployment_id deployment_id)),
              ),
            )
      ]
]
