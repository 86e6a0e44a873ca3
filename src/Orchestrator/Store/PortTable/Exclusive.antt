-- ===== src/Orchestrator/Store/PortTable/Exclusive.antt =====
-- A port of a node belongs to one server at most (services/orchestrator/src/repository.ts).
use nexus_infra.Prelude.{
  ℕ, String, ◌≡◌, refl, sym, ◌∙◌, Bool, false, Option, none, some, List, [], ◌∷◌, any, filter, ◌==◌,
  eq_iff, arith, Bool-cases, Option-cases, inl, inr, All,
}
use nexus_infra.Prelude.Assoc.{Assoc, insert, values, drop_where, map_where}
use nexus_infra.Prelude.Rows.{IsRow, IsRow-drop_where, IsRow-insert, IsRow-any, IsRow-map_where}
use nexus_infra.Orchestrator.Store.Rows.{PortAllocationRecord, Store}
use nexus_infra.Orchestrator.Store.PortTable.{
  is_clash, clash_port, is_mine, is_port, add_ports, ports_of, replaced, release_ports, replace_on,
  node_given, replace_port_allocations, set_primary_port, kept_primary, primary_of,
}

-- No two servers have the same port of the same node.
abbrev pub IsExclusive : Assoc PortAllocationRecord → Type 0
IsExclusive m =
    (a b : PortAllocationRecord)
    → IsRow a m
    → IsRow b m
    → a.node_id ≡ b.node_id
    → a.port ≡ b.port
    → a.deployment_id ≡ b.deployment_id

-- No other server has the port of the node.
abbrev IsClear : String → String → ℕ → Assoc PortAllocationRecord → Type 0
IsClear deployment_id node_id port m =
    (a : PortAllocationRecord)
    → IsRow a m
    → a.node_id ≡ node_id
    → a.port ≡ port
    → a.deployment_id ≡ deployment_id

IsClear-of_any :
    (deployment_id node_id : String) (port : ℕ) (m : Assoc PortAllocationRecord)
    → any (is_clash deployment_id node_id port) (values m) ≡ false
    → IsClear deployment_id node_id port m
unfolding is_clash
IsClear-of_any deployment_id node_id port m h a row n p = ground (
  arith,
  IsRow-any (is_clash deployment_id node_id port) a m h row,
  n,
  p,
  eq_iff a.node_id node_id,
  eq_iff a.deployment_id deployment_id,
)

IsClear-of_none :
    (deployment_id node_id : String) (ports : List ℕ) (m : Assoc PortAllocationRecord)
    → clash_port deployment_id node_id ports m ≡ none
    → All (λ port. IsClear deployment_id node_id port m) ports
unfolding clash_port
IsClear-of_none deployment_id node_id [] m h = tt
IsClear-of_none deployment_id node_id (port ∷ ports) m h =
    elim (Bool-cases (any (is_clash deployment_id node_id port) (values m))) [
      | inl held ↦ absurd (ground (arith, h, held))
      | inr free ↦ (
        IsClear-of_any deployment_id node_id port m free,
        IsClear-of_none deployment_id node_id ports m (ground (arith, h, free)),
      )
    ]

pub drop_where-IsExclusive :
    (p : PortAllocationRecord → Bool) (m : Assoc PortAllocationRecord)
    → IsExclusive m
    → IsExclusive (drop_where p m)
drop_where-IsExclusive p m x a b ra rb =
    x a b (IsRow-drop_where p a m ra).0 (IsRow-drop_where p b m rb).0

insert-IsExclusive :
    (key : String) (v : PortAllocationRecord) (m : Assoc PortAllocationRecord)
    → IsClear v.deployment_id v.node_id v.port m
    → IsExclusive m
    → IsExclusive (insert key v m)
insert-IsExclusive key v m clear x a b ra rb n p = elim (IsRow-insert key v a m ra) [
  | inl ea ↦ elim (IsRow-insert key v b m rb) [
    | inl eb ↦ ground (arith, ea, eb)
    | inr rb' ↦
        let at : v.node_id ≡ a.node_id = ground (arith, ea) in
        let by : v.port ≡ a.port = ground (arith, ea) in
        let mine : v.deployment_id ≡ a.deployment_id = ground (arith, ea) in
        sym mine ∙ sym (clear b rb' (sym n ∙ sym at) (sym p ∙ sym by))
  ]
  | inr ra' ↦ elim (IsRow-insert key v b m rb) [
    | inl eb ↦
        let at : v.node_id ≡ b.node_id = ground (arith, eb) in
        let by : v.port ≡ b.port = ground (arith, eb) in
        let mine : v.deployment_id ≡ b.deployment_id = ground (arith, eb) in
        clear a ra' (n ∙ sym at) (p ∙ sym by) ∙ mine
    | inr rb' ↦ x a b ra' rb' n p
  ]
]

insert-IsClear :
    (key deployment_id node_id : String) (port : ℕ) (v : PortAllocationRecord)
    (m : Assoc PortAllocationRecord)
    → v.deployment_id ≡ deployment_id
    → IsClear deployment_id node_id port m
    → IsClear deployment_id node_id port (insert key v m)
insert-IsClear key deployment_id node_id port v m mine clear a row n p =
    elim (IsRow-insert key v a m row) [
      | inl e ↦ ground (arith, e, mine)
      | inr row' ↦ clear a row' n p
    ]

insert-All-IsClear :
    (key deployment_id node_id : String) (ports : List ℕ) (v : PortAllocationRecord)
    (m : Assoc PortAllocationRecord)
    → v.deployment_id ≡ deployment_id
    → All (λ port. IsClear deployment_id node_id port m) ports
    → All (λ port. IsClear deployment_id node_id port (insert key v m)) ports
insert-All-IsClear key deployment_id node_id [] v m mine all = tt
insert-All-IsClear key deployment_id node_id (port ∷ ports) v m mine (clear, all) = (
  insert-IsClear key deployment_id node_id port v m mine clear,
  insert-All-IsClear key deployment_id node_id ports v m mine all,
)

add_ports-IsExclusive :
    (deployment_id : String) (now : ℕ) (node_id : String) (primary : Option ℕ)
    (ports : List (String × ℕ)) (m : Assoc PortAllocationRecord)
    → All (λ port. IsClear deployment_id node_id port m) (ports_of ports)
    → IsExclusive m
    → IsExclusive (add_ports deployment_id now node_id primary ports m)
unfolding add_ports
add_ports-IsExclusive deployment_id now node_id primary [] m all x = x
add_ports-IsExclusive deployment_id now node_id primary ((id, port) ∷ ports) m (clear, all) x =
    let v : PortAllocationRecord = record {
      id = id;
      node_id = node_id;
      port = port;
      deployment_id = deployment_id;
      primary = is_port port primary;
      created_at = now;
    } in
    add_ports-IsExclusive deployment_id now node_id primary ports (insert id v m)
      (insert-All-IsClear id deployment_id node_id (ports_of ports) v m refl all)
      (insert-IsExclusive id v m clear x)

drop-All-IsClear :
    (q : PortAllocationRecord → Bool) (deployment_id node_id : String) (ports : List ℕ)
    (m : Assoc PortAllocationRecord)
    → All (λ port. IsClear deployment_id node_id port m) ports
    → All (λ port. IsClear deployment_id node_id port (drop_where q m)) ports
drop-All-IsClear q deployment_id node_id [] m all = tt
drop-All-IsClear q deployment_id node_id (port ∷ ports) m (clear, all) = (
  λ a row n p. clear a (IsRow-drop_where q a m row).0 n p,
  drop-All-IsClear q deployment_id node_id ports m all,
)

replace_on-IsExclusive :
    (now : ℕ) (deployment_id : String) (node_id : Option String) (ports : List (String × ℕ))
    (s s' : Store)
    → replace_on now deployment_id node_id ports s ≡ replaced s'
    → IsExclusive s.port_allocations
    → IsExclusive s'.port_allocations
unfolding replace_on release_ports
replace_on-IsExclusive now deployment_id none ports s s' h x =
    let same : s'.port_allocations ≡ drop_where (is_mine deployment_id) s.port_allocations =
      ground (arith, h) in
    rw same (drop_where-IsExclusive (is_mine deployment_id) s.port_allocations x)
replace_on-IsExclusive now deployment_id (some node_id) ports s s' h x =
    elim (Option-cases (clash_port deployment_id node_id (ports_of ports) s.port_allocations)) [
      | inr (port, held) ↦ absurd (ground (arith, h, held))
      | inl free ↦
          let kept = drop_where (is_mine deployment_id) s.port_allocations in
          let primary =
            kept_primary (primary_of deployment_id s.port_allocations) (ports_of ports) in
          let same : s'.port_allocations ≡ add_ports deployment_id now node_id primary ports kept =
            ground (arith, h, free) in
          rw same (
            add_ports-IsExclusive deployment_id now node_id primary ports kept
              (drop-All-IsClear (is_mine deployment_id) deployment_id node_id (ports_of ports)
                s.port_allocations
                (IsClear-of_none deployment_id node_id (ports_of ports) s.port_allocations free))
              (drop_where-IsExclusive (is_mine deployment_id) s.port_allocations x))
    ]

pub replace_port_allocations-IsExclusive :
    (now : ℕ) (deployment_id : String) (node_id : Option String) (ports : List (String × ℕ))
    (s s' : Store)
    → replace_port_allocations now deployment_id node_id ports s ≡ replaced s'
    → IsExclusive s.port_allocations
    → IsExclusive s'.port_allocations
unfolding replace_port_allocations
replace_port_allocations-IsExclusive now deployment_id node_id ports s s' h x =
    replace_on-IsExclusive now deployment_id (node_given node_id) ports s s' h x

map_where-IsExclusive :
    (p : PortAllocationRecord → Bool) (port : ℕ) (m : Assoc PortAllocationRecord)
    → IsExclusive m
    → IsExclusive (map_where p (λ a. record a { primary = a.port == port }) m)
map_where-IsExclusive p port m x a b ra rb n q =
    let f = λ (r : PortAllocationRecord). record r { primary = r.port == port } in
    let (u, ru, eu) = IsRow-map_where p f a m ra in
    let (v, rv, ev) = IsRow-map_where p f b m rb in
    let same = x u v ru rv in ground (arith, eu, ev, n, q, same)

pub set_primary_port-IsExclusive :
    (deployment_id : String) (port : ℕ) (s : Store)
    → IsExclusive s.port_allocations
    → IsExclusive (set_primary_port deployment_id port s).0.port_allocations
unfolding set_primary_port
set_primary_port-IsExclusive deployment_id port s x =
    elim (Bool-cases
      (any (λ a. a.port == port) (filter (is_mine deployment_id) (values s.port_allocations)))) [
        | inl mine ↦
            let same : (set_primary_port deployment_id port s).0.port_allocations
                ≡ map_where (is_mine deployment_id) (λ a. record a { primary = a.port == port })
                    s.port_allocations =
              ground (arith, mine) in
            rw same (map_where-IsExclusive (is_mine deployment_id) port s.port_allocations x)
        | inr not_mine ↦
            let same : (set_primary_port deployment_id port s).0 ≡ s = ground (arith, not_mine) in
            rw same x
      ]
