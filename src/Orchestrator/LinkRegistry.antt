-- ===== src/Orchestrator/LinkRegistry.antt =====
-- The agent links that are up (services/orchestrator/src/agentLink.ts). Links have numbers, in the
-- order in which they were attached; `utf8` and `text` are Node's conversions of the sessions.
pub mod Closed
pub mod Current
use nexus_infra.Prelude.{
  ℕ, suc, String, Bool, true, false, not, Option, none, some, List, [], ◌∷◌, ◌++◌, if◌then◌else◌,
  ◌==◌, length, is_none,
}
use nexus_infra.Prelude.Assoc.{Assoc, lookup, insert, erase}
use nexus_infra.Prelude.Table.{set_at}
use nexus_infra.Shared.AgentLink.{LinkSession, new_session, open_stream, receive, close}

-- `links` is the Map, `sessions` the session of each link, `owners` the node that each was attached
-- for, and `hung_up` the links whose socket the registry closed.
pub record LinkRegistry : Type 0 where
  pub links : Assoc ℕ
  pub sessions : ℕ → LinkSession
  pub owners : ℕ → String
  pub made : ℕ
  pub hung_up : List ℕ

unfoldable pub new_registry : LinkRegistry
new_registry = record {
  links = [];
  sessions = λ link. new_session false;
  owners = λ link. "";
  made = 0;
  hung_up = [];
}

unfoldable pub is_linked : String → LinkRegistry → Bool
is_linked node_id r = not (is_none (lookup node_id r.links))

unfoldable pub registry_size : LinkRegistry → ℕ
registry_size r = length r.links

unfoldable pub set_session : ℕ → LinkSession → LinkRegistry → LinkRegistry
set_session link s r = record r { sessions = set_at link s r.sessions }

unfoldable pub put_link : String → LinkRegistry → LinkRegistry
put_link node_id r = record r {
  links = insert node_id r.made r.links;
  sessions = set_at r.made (new_session false) r.sessions;
  owners = set_at r.made node_id r.owners;
  made = suc r.made;
}

-- `this.links.get(nodeId) === link`
unfoldable pub is_still : Option ℕ → ℕ → Bool
is_still none link = false
is_still (some current) link = current == link

-- `registry.open(nodeId)`: the stream's handle, when the node has a link.
unfoldable pub open_on : ℕ → LinkRegistry → LinkRegistry × Option ℕ
open_on link r =
    if (r.sessions link).closed then (r, none) else elim (open_stream (r.sessions link)) [
      | none ↦ (r, none)
      | some (s, handle) ↦ (set_session link s r, some handle)
    ]

unfoldable pub open_to : String → LinkRegistry → LinkRegistry × Option ℕ
open_to node_id r = elim (lookup node_id r.links) [ none ↦ (r, none) | some link ↦ open_on link r ]

-- What happens to the registry.
pub data LinkEvent : Type 0 where
  attached : (node_id : String) → LinkEvent
  socket_closed : (link : ℕ) → LinkEvent
  heard : (link : ℕ) (is_binary : Bool) (message : List ℕ) → LinkEvent
  closed_by_us : (node_id reason : String) → LinkEvent
  opened_to : (node_id : String) → LinkEvent

module _ (utf8 : String → List ℕ) (text : List ℕ → String) where
  -- `registry.close(nodeId, reason)`
  unfoldable pub close_link : String → String → LinkRegistry → LinkRegistry
  close_link node_id reason r = elim (lookup node_id r.links) [
    | none ↦ r
    | some link ↦ record r {
      links = erase node_id r.links;
      sessions = set_at link (close utf8 text reason (r.sessions link)) r.sessions;
      hung_up = r.hung_up ++ link ∷ [];
    }
  ]

  unfoldable pub attach : String → LinkRegistry → LinkRegistry
  attach node_id r = put_link node_id (close_link node_id "replaced by a new link" r)

  -- The handler of the socket's `close`.
  unfoldable pub on_close : ℕ → LinkRegistry → LinkRegistry
  on_close link r =
      let r' = set_session link (close utf8 text "agent link closed" (r.sessions link)) r in
      if is_still (lookup (r.owners link) r.links) link
      then record r' { links = erase (r.owners link) r.links }
      else r'

  -- The handler of the socket's `message`.
  unfoldable pub on_message : ℕ → Bool → List ℕ → LinkRegistry → LinkRegistry
  on_message link is_binary message r =
      if is_binary then set_session link (receive utf8 text message (r.sessions link)) r else r

  unfoldable pub after_event : LinkEvent → LinkRegistry → LinkRegistry
  after_event (attached node_id) r = attach node_id r
  after_event (socket_closed link) r = on_close link r
  after_event (heard link is_binary message) r = on_message link is_binary message r
  after_event (closed_by_us node_id reason) r = close_link node_id reason r
  after_event (opened_to node_id) r = (open_to node_id r).0

  unfoldable pub after_events : List LinkEvent → LinkRegistry → LinkRegistry
  after_events [] r = r
  after_events (e ∷ es) r = after_events es (after_event e r)
