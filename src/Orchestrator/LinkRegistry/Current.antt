-- ===== src/Orchestrator/LinkRegistry/Current.antt =====
-- At most one live agent link a node, and a late `close` harms no other (services/orchestrator/src/
-- agentLink.ts).
use nexus_infra.Prelude.{
  ℕ, ◌<◌, String, ◌≡◌, sym, ◌∙◌, true, false, none, some, List, [], ◌∷◌, ◌==◌, arith, str_eq,
  eq_iff, Bool-cases, Option-cases, inl, inr,
}
use nexus_infra.Prelude.Assoc.{lookup, lookup-insert, lookup-erase}
use nexus_infra.Prelude.Table.{set_at}
use nexus_infra.Shared.AgentLink.{LinkSession, new_session, open_stream}
use nexus_infra.Orchestrator.LinkRegistry.{
  LinkRegistry, new_registry, set_session, close_link, put_link, attach, is_still, on_close,
  on_message, open_on, open_to, LinkEvent, attached, socket_closed, heard, closed_by_us, opened_to,
  after_event, after_events,
}
use nexus_infra.Orchestrator.LinkRegistry.Closed.{receive-closed, close-closed, open_stream-closed}

-- The links of the map are the live ones, each under its own node.
pub record IsCurrent (r : LinkRegistry) : Type 0 where
  pub live :
      (node_id : String) (link : ℕ)
      → lookup node_id r.links ≡ some link
      → ((r.sessions link).closed ≡ false) × (r.owners link ≡ node_id) × (link < r.made)
  pub kept :
      (link : ℕ)
      → link < r.made
      → (r.sessions link).closed ≡ false
      → lookup (r.owners link) r.links ≡ some link

module _ (utf8 : String → List ℕ) (text : List ℕ → String) where
  set_session-IsCurrent :
      (link : ℕ) (s : LinkSession) (r : LinkRegistry)
      → s.closed ≡ (r.sessions link).closed
      → IsCurrent r
      → IsCurrent (set_session link s r)
  unfolding set_session set_at
  set_session-IsCurrent link s r same c = record {
    live = λ node_id l e. ground (arith, same, c.live node_id l e);
    kept = λ l old up. c.kept l old (elim (Bool-cases (l == link)) [
      | inl this ↦ ground (arith, same, up, this)
      | inr other ↦ ground (arith, up, other)
    ]);
  }

  module _ (r : LinkRegistry) (node_id : String) (current : ℕ) (c : IsCurrent r)
      (found : lookup node_id r.links ≡ some current) where
    other_live :
        (k : String) (l : ℕ)
        → lookup k r.links ≡ some l
        → str_eq node_id k ≡ false
        → (l == current) ≡ false
    other_live k l e other =
        let (_, mine, _) = c.live node_id current found in
        let (_, yours, _) = c.live k l e in
        elim (Bool-cases (l == current)) [
          | inr apart ↦ apart
          | inl same ↦
              let now : l ≡ current = ground (arith, same) in
              let both : k ≡ node_id = sym yours ∙ rw now mine in
              absurd (ground (arith, other, both, eq_iff node_id k))
        ]

    other_owner :
        (l : ℕ)
        → lookup (r.owners l) r.links ≡ some l
        → (l == current) ≡ false
        → str_eq node_id (r.owners l) ≡ false
    other_owner l e apart = elim (Bool-cases (str_eq node_id (r.owners l))) [
      | inr other ↦ other
      | inl same ↦
          let now : node_id ≡ r.owners l = ground (arith, same, eq_iff node_id (r.owners l)) in
          let mine : lookup node_id r.links ≡ some l = rw now e in
          absurd (ground (arith, found, mine, apart))
    ]

  close_link-IsCurrent :
      (node_id reason : String) (r : LinkRegistry)
      → IsCurrent r
      → IsCurrent (close_link utf8 text node_id reason r)
  unfolding close_link set_at
  close_link-IsCurrent node_id reason r c = elim (Option-cases (lookup node_id r.links)) [
    | inl unlinked ↦
        let same : close_link utf8 text node_id reason r ≡ r = ground (arith, unlinked) in rw same c
    | inr (current, found) ↦
        let down = close-closed utf8 text reason (r.sessions current) in
        rw (found, close_link)
          (record {
            live = λ k l e. elim (Bool-cases (str_eq node_id k)) [
              | inl this ↦ absurd (ground (arith, e, this, lookup-erase node_id k r.links))
              | inr other ↦
                  let e' : lookup k r.links ≡ some l =
                    ground (arith, e, other, lookup-erase node_id k r.links) in
                  ground (arith, c.live k l e', other_live r node_id current c found k l e' other)
            ];
            kept = λ l old up. elim (Bool-cases (l == current)) [
              | inl this ↦ absurd (ground (arith, up, this, down))
              | inr apart ↦
                  let up' : (r.sessions l).closed ≡ false = ground (arith, up, apart) in
                  let e' = c.kept l old up' in
                  ground (
                    arith,
                    e',
                    lookup-erase node_id (r.owners l) r.links,
                    other_owner r node_id current c found l e' apart,
                  )
            ];
          })
  ]

  close_link-unlinked :
      (node_id reason : String) (r : LinkRegistry)
      → lookup node_id (close_link utf8 text node_id reason r).links ≡ none
  unfolding close_link
  close_link-unlinked node_id reason r =
      ground (arith, lookup-erase node_id node_id r.links, eq_iff node_id node_id)

  put_link-IsCurrent :
      (node_id : String) (r : LinkRegistry)
      → lookup node_id r.links ≡ none
      → IsCurrent r
      → IsCurrent (put_link node_id r)
  unfolding put_link set_at new_session
  put_link-IsCurrent node_id r unlinked c = record {
    live = λ k l e. elim (Bool-cases (str_eq node_id k)) [
      | inl this ↦ ground (arith, e, this, eq_iff node_id k, lookup-insert node_id k r.made r.links)
      | inr other ↦
          let e' : lookup k r.links ≡ some l =
            ground (arith, e, other, lookup-insert node_id k r.made r.links) in
          ground (arith, c.live k l e')
    ];
    kept = λ l old up. elim (Bool-cases (l == r.made)) [
      | inl new ↦
          ground (arith, new, lookup-insert node_id node_id r.made r.links, eq_iff node_id node_id)
      | inr before ↦
          let e' = c.kept l (ground (arith, old, before)) (ground (arith, up, before)) in
          let other : str_eq node_id (r.owners l) ≡ false =
            ground (arith, e', unlinked, eq_iff node_id (r.owners l)) in
          ground (arith, e', before, other, lookup-insert node_id (r.owners l) r.made r.links)
    ];
  }

  on_close-IsCurrent :
      (link : ℕ) (r : LinkRegistry) → IsCurrent r → IsCurrent (on_close utf8 text link r)
  unfolding on_close set_session set_at is_still
  on_close-IsCurrent link r c =
      let down = close-closed utf8 text "agent link closed" (r.sessions link) in
      let mine = r.owners link in
      record {
        live = λ k l e. elim (Option-cases (lookup mine r.links)) [
          | inl unlinked ↦
              let e' : lookup k r.links ≡ some l = ground (arith, e, unlinked) in
              ground (arith, c.live k l e', unlinked, e')
          | inr (current, found) ↦ elim (Bool-cases (current == link)) [
            | inl still ↦
                let e' : lookup k r.links ≡ some l =
                  ground (arith, e, found, still, lookup-erase mine k r.links) in
                let other : str_eq mine k ≡ false =
                  ground (arith, e, found, still, lookup-erase mine k r.links) in
                ground (
                  arith,
                  c.live k l e',
                  found,
                  still,
                  other_live r mine current c found k l e' other,
                )
            | inr replaced ↦
                let e' : lookup k r.links ≡ some l = ground (arith, e, found, replaced) in
                ground (arith, c.live k l e', found, replaced, e')
          ]
        ];
        kept = λ l old up. elim (Bool-cases (l == link)) [
          | inl this ↦ absurd (ground (arith, up, this, down))
          | inr apart ↦
              let e' = c.kept l (ground (arith, old)) (ground (arith, up, apart)) in
              elim (Option-cases (lookup mine r.links)) [
                | inl unlinked ↦ ground (arith, e', unlinked)
                | inr (current, found) ↦ elim (Bool-cases (current == link)) [
                  | inl still ↦
                      let away : (l == current) ≡ false = ground (arith, apart, still) in
                      ground (
                        arith,
                        e',
                        found,
                        still,
                        lookup-erase mine (r.owners l) r.links,
                        other_owner r mine current c found l e' away,
                      )
                  | inr replaced ↦ ground (arith, e', found, replaced)
                ]
              ]
        ];
      }

  open_on-IsCurrent : (link : ℕ) (r : LinkRegistry) → IsCurrent r → IsCurrent (open_on link r).0
  unfolding open_on
  open_on-IsCurrent link r c = elim (Bool-cases (r.sessions link).closed) [
    | inl down ↦ let same : (open_on link r).0 ≡ r = ground (arith, down) in rw same c
    | inr up ↦ elim (Option-cases (open_stream (r.sessions link))) [
      | inl full ↦ let same : (open_on link r).0 ≡ r = ground (arith, up, full) in rw same c
      | inr ((s, handle), e) ↦
          let same : (open_on link r).0 ≡ set_session link s r = ground (arith, up, e) in
          rw same
            (set_session-IsCurrent link s r (open_stream-closed (r.sessions link) s handle e) c)
    ]
  ]

  after_event-IsCurrent :
      (e : LinkEvent) (r : LinkRegistry) → IsCurrent r → IsCurrent (after_event utf8 text e r)
  unfolding after_event attach on_message open_to
  after_event-IsCurrent (attached node_id) r c =
      put_link-IsCurrent node_id _ (close_link-unlinked node_id "replaced by a new link" r)
        (close_link-IsCurrent node_id "replaced by a new link" r c)
  after_event-IsCurrent (socket_closed link) r c = on_close-IsCurrent link r c
  after_event-IsCurrent (heard link true message) r c =
      set_session-IsCurrent link _ r (receive-closed utf8 text message (r.sessions link)) c
  after_event-IsCurrent (heard link false message) r c = c
  after_event-IsCurrent (closed_by_us node_id reason) r c = close_link-IsCurrent node_id reason r c
  after_event-IsCurrent (opened_to node_id) r c = elim (Option-cases (lookup node_id r.links)) [
    | inl unlinked ↦ let same : (open_to node_id r).0 ≡ r = ground (arith, unlinked) in rw same c
    | inr (link, found) ↦
        let same : (open_to node_id r).0 ≡ (open_on link r).0 = ground (arith, found) in
        rw same (open_on-IsCurrent link r c)
  ]

  after_events-IsCurrent :
      (es : List LinkEvent) (r : LinkRegistry)
      → IsCurrent r
      → IsCurrent (after_events utf8 text es r)
  unfolding after_events
  after_events-IsCurrent [] r c = c
  after_events-IsCurrent (e ∷ es) r c =
      after_events-IsCurrent es (after_event utf8 text e r) (after_event-IsCurrent e r c)

  new_registry-IsCurrent : IsCurrent new_registry
  unfolding new_registry lookup
  new_registry-IsCurrent = record {
    live = λ node_id link e. ground (arith, e);
    kept = λ link old up. absurd (ground (arith, old));
  }

  -- Whatever sequence of attaching, hearing from, opening streams on, closing and losing links the
  -- control plane goes through, in whatever order the `close` events of sockets arrive: the link that
  -- the registry has for a node was attached for that node and is not closed, and every link that is
  -- not closed is the one that the registry has for its node. So no node has two live links, and the
  -- late `close` of a replaced link does not take its replacement away.
  pub registry-IsCurrent :
      (es : List LinkEvent) → IsCurrent (after_events utf8 text es new_registry)
  registry-IsCurrent es = after_events-IsCurrent es new_registry new_registry-IsCurrent
