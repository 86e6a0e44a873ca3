-- ===== src/Orchestrator/LinkTests.antt =====
-- Tests and instances of the theorems about agent links of the orchestrator.
use nexus_infra.Prelude.{
  ℕ, String, ◌≡◌, refl, true, some, none, List, [], ◌∷◌, length, leb, ◌&&◌, if◌then◌else◌, arith,
}
use nexus_infra.Orchestrator.LinkHost.{to_hex, hex_digit}
use nexus_infra.Orchestrator.LinkHost.Names.{there_and_back, link_host-node_id}
use nexus_infra.Orchestrator.LinkHost.{link_host}
use nexus_infra.Prelude.{is_none, not}
use nexus_infra.Orchestrator.LinkRegistry.{
  LinkEvent, attached, socket_closed, heard, closed_by_us, opened_to, after_events, new_registry,
}
use nexus_infra.Orchestrator.LinkRegistry.Current.{IsCurrent, registry-IsCurrent}

-- "n1"
abbrev node_id : List ℕ
node_id = 110 ∷ 49 ∷ []

node_host : to_hex node_id ≡ 54 ∷ 101 ∷ 51 ∷ 49 ∷ []
unfolding to_hex hex_digit
node_host = refl

link_host-node_id_example :
    (is_none (link_host node_id) ≡ not (leb 1 (length node_id) && leb (length node_id) 115))
    × (there_and_back node_id
        ≡ (if leb 1 (length node_id) && leb (length node_id) 115 then some node_id else none))
link_host-node_id_example = link_host-node_id node_id (omega arith)

abbrev utf8 : String → List ℕ
utf8 s = []

abbrev text : List ℕ → String
text bytes = ""

-- A node dials in again before the old link's socket closes.
abbrev replacement : List LinkEvent
replacement =
    attached "n1"
    ∷ opened_to "n1"
    ∷ attached "n1"
    ∷ heard 1 true (3 ∷ 0 ∷ 0 ∷ 0 ∷ 1 ∷ [])
    ∷ socket_closed 0
    ∷ closed_by_us "n2" "token rotated"
    ∷ []

registry-IsCurrent_example : IsCurrent (after_events utf8 text replacement new_registry)
registry-IsCurrent_example = registry-IsCurrent utf8 text replacement
