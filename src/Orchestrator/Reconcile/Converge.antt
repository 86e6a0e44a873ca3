-- ===== src/Orchestrator/Reconcile/Converge.antt =====
-- Reconciling settles (services/orchestrator/src/reconcile.ts).
use nexus_infra.Prelude.{
  String, ◌≡◌, refl, Bool, true, false, Option, none, some, List, [], ◌∷◌, str_eq, filter,
  find_last, arith, Option-cases, inl, inr, eq_iff, any,
}
use nexus_infra.Orchestrator.Reconcile.{
  ContainerState, NodeInventory, DeploymentView, ReconcileAction, mark_stopped, restart,
  mark_running, on_node, believed_up, container_of, is_up, adopt, decide, decide_each,
  reconcile_node, set_status, apply_action, apply_all,
}

abbrev pub is_restart : ReconcileAction → Bool
is_restart (restart id reason) = true
is_restart action = false

abbrev pub target : ReconcileAction → String
target (mark_stopped id reason) = id
target (restart id reason) = id
target (mark_running id container_id reason) = id

find_last-holds :
    {A : Type 0} (p : A → Bool) (xs : List A) (x : A) → find_last p xs ≡ some x → p x ≡ true
find_last-holds p [] x h = ground (arith, h)
find_last-holds p (y ∷ ys) x h = ground (arith, h, find_last-holds p ys x)

-- The container that a record names is found again under its own id.
container_of-again :
    (id : Option String) (containers : List ContainerState) (c : ContainerState)
    → container_of id containers ≡ some c
    → container_of (some c.container_id) containers ≡ some c
unfolding container_of
container_of-again none containers c h = ground (arith, h)
container_of-again (some id) containers c h =
    let found : find_last (λ x. str_eq x.container_id id) containers ≡ some c = ground (arith, h) in
    let same : c.container_id ≡ id = ground (
      arith,
      find_last-holds (λ x. str_eq x.container_id id) containers c found,
      eq_iff c.container_id id,
    ) in
    again c.container_id same
  where
    again : (j : String) → j ≡ id → container_of (some j) containers ≡ some c
    again j same = rw same h

module _ (has_config : String → Bool) (containers : List ContainerState) where
  stopped-settles : (d : DeploymentView) → decide containers (set_status "stopped" none d) ≡ none
  unfolding decide set_status believed_up is_up container_of
  stopped-settles d = refl

  running-settles :
      (d : DeploymentView) (c : ContainerState)
      → container_of (some c.container_id) containers ≡ some c
      → c.running ≡ true
      → decide containers (set_status "running" (some c.container_id) d) ≡ none
  unfolding decide set_status believed_up is_up
  running-settles d c found up = ground (arith, found, up)

  -- After a decision other than a restart is carried out, the same inventory asks for nothing more
  -- of that server: its record agrees with the machine.
  pub applied-settles :
      (d : DeploymentView) (action : ReconcileAction)
      → decide containers d ≡ some action
      → is_restart action ≡ false
      → decide containers (apply_action has_config action d) ≡ none
  unfolding decide apply_action set_status believed_up is_up adopt container_of
  applied-settles d (mark_stopped id reason) h other =
      let same : str_eq d.id id ≡ true = ground (arith, h, eq_iff d.id id) in
      rw (same, apply_action) (stopped-settles d)
  applied-settles d (restart id reason) h other = absurd (ground (arith, other))
  applied-settles d (mark_running id container_id reason) h other =
      elim (Option-cases (container_of d.container_id containers)) [
        | inl missing ↦ absurd (ground (arith, h, missing))
        | inr (c, found) ↦
            let same : str_eq d.id id ≡ true = ground (arith, h, found, eq_iff d.id id) in
            let named : container_id ≡ c.container_id = ground (arith, h, found) in
            let up : c.running ≡ true = ground (arith, h, found) in
            rw (same, named, apply_action)
              (running-settles d c (container_of-again d.container_id containers c found) up)
      ]

  action-elsewhere :
      (d x : DeploymentView) (action : ReconcileAction)
      → str_eq d.id x.id ≡ false
      → decide containers x ≡ some action
      → apply_action has_config action d ≡ d
  unfolding decide apply_action adopt
  action-elsewhere d x (mark_stopped id reason) other h =
      let same : x.id ≡ id = ground (arith, h) in ground (arith, same, other)
  action-elsewhere d x (restart id reason) other h =
      let same : x.id ≡ id = ground (arith, h) in ground (arith, same, other)
  action-elsewhere d x (mark_running id container_id reason) other h =
      elim (Option-cases (container_of x.container_id containers)) [
        | inl missing ↦ absurd (ground (arith, h, missing))
        | inr (c, found) ↦
            let same : x.id ≡ id = ground (arith, h, found) in ground (arith, same, other)
      ]

  decide_each-elsewhere :
      (d : DeploymentView) (ds : List DeploymentView)
      → any (λ x. str_eq d.id x.id) ds ≡ false
      → apply_all has_config (decide_each containers ds) d ≡ d
  unfolding decide_each apply_all
  decide_each-elsewhere d [] h = refl
  decide_each-elsewhere d (x ∷ ds) h =
      let later = decide_each-elsewhere d ds (ground (arith, h)) in
      elim (Option-cases (decide containers x)) [
        | inl quiet ↦ ground (arith, quiet, later)
        | inr (action, decided) ↦
            ground (arith, decided, action-elsewhere d x action (ground (arith, h)) decided, later)
      ]

-- A node's inventory changes the record of no server but those on that node.
pub reconcile_node-elsewhere :
    (has_config : String → Bool) (deployments : List DeploymentView) (inventory : NodeInventory)
    (d : DeploymentView)
    → any (λ x. str_eq d.id x.id) (filter (on_node inventory.node_id) deployments) ≡ false
    → apply_all has_config (reconcile_node deployments inventory) d ≡ d
unfolding reconcile_node
reconcile_node-elsewhere has_config deployments inventory d h =
    decide_each-elsewhere has_config inventory.containers d
      (filter (on_node inventory.node_id) deployments) h
