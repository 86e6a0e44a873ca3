-- ===== src/Orchestrator/Ports/Allotted.antt =====
-- The ports that a plan allots may be bound (services/orchestrator/src/portPool.ts).
use nexus_infra.Prelude.{
  ℕ, zero, suc, ◌+◌, ◌-◌, ◌≤◌, String, ◌≡◌, refl, ◌⊎◌, true, false, Option, some, List, [], ◌∷◌,
  ◌++◌, ◌==◌, any, All, arith, inl, inr, Bool-cases, Option-cases,
}
use nexus_infra.Prelude.Assoc.{Assoc}
use nexus_infra.Orchestrator.Ports.{
  PortRange, TakenPorts, allotted, as_port, add_port, is_open, outside, is_free, first_free,
  Progress, Round, went, stopped, choose, take_explicit, take_auto, is_auto, explicit_ports,
  auto_ports, finish, plan_ports,
}

-- A port that may be bound: in the node's range, if it has one, and held by no other server.
pub record IsAllowed (range : Option PortRange) (taken : TakenPorts) (self : Option String)
    (port : ℕ) : Type 0 where
  pub inside : outside range port ≡ false
  pub unheld : is_open taken self port ≡ true

first_free-lem :
    (taken : TakenPorts) (self : Option String) (chosen : List ℕ) (count p port : ℕ)
    → first_free taken self chosen count p ≡ some port
    → (is_free taken self chosen port ≡ true) × (p ≤ port) × (suc port ≤ p + count)
unfolding first_free
first_free-lem taken self chosen zero p port h = absurd (ground (arith, h))
first_free-lem taken self chosen (suc count) p port h =
    elim (Bool-cases (is_free taken self chosen p)) [
      | inl free ↦
          let same : p ≡ port = ground (arith, h, free) in
          rw⁻¹ same (free, omega arith, omega arith)
      | inr held ↦
          let (free, low, high) =
            first_free-lem taken self chosen count (suc p) port (ground (arith, h, held)) in
          (free, omega (arith, low), omega (arith, high))
    ]

abbrev nothing : Progress
nothing = record { chosen = []; resolved = [] }

Round-cases :
    (round : Round)
    → ((status : ℕ) × (error : String) × (round ≡ stopped status error))
      ⊎ ((progress : Progress) × (round ≡ went progress))
Round-cases (stopped status error) = inl (status, error, refl)
Round-cases (went progress) = inr (progress, refl)

module _ (fold : String → String) (range : Option PortRange) (taken : TakenPorts)
    (self : Option String) where
  add_port-All :
      (port : ℕ) (chosen : List ℕ)
      → IsAllowed range taken self port
      → All (IsAllowed range taken self) chosen
      → All (IsAllowed range taken self) (chosen ++ port ∷ [])
  add_port-All port [] ok all = (ok, tt)
  add_port-All port (p ∷ ps) ok (first, all) = (first, add_port-All port ps ok all)

  choose-All :
      (port : ℕ) (target : String) (progress : Progress)
      → IsAllowed range taken self port
      → All (IsAllowed range taken self) progress.chosen
      → All (IsAllowed range taken self) (choose port target progress).chosen
  unfolding choose add_port
  choose-All port target progress ok all =
      elim (Bool-cases (any (λ p. p == port) progress.chosen)) [
        | inl again ↦ rw again all
        | inr new ↦ rw new (add_port-All port progress.chosen ok all)
      ]

  take_explicit-All :
      (key target : String) (progress later : Progress)
      → take_explicit range taken self key target progress ≡ went later
      → All (IsAllowed range taken self) progress.chosen
      → All (IsAllowed range taken self) later.chosen
  unfolding take_explicit
  take_explicit-All key target progress later h all = elim (Option-cases (as_port key)) [
    | inl bad ↦ absurd (ground (arith, h, bad))
    | inr (port, parsed) ↦
        let inside : outside range port ≡ false = ground (arith, h, parsed) in
        let unheld : is_open taken self port ≡ true = ground (arith, h, parsed, inside) in
        let same : later ≡ choose port target progress =
          ground (arith, h, parsed, inside, unheld) in
        rw same (choose-All port target progress (record { inside = inside; unheld = unheld }) all)
  ]

  explicit_ports-All :
      (entries : Assoc String) (progress later : Progress)
      → explicit_ports fold range taken self entries progress ≡ went later
      → All (IsAllowed range taken self) progress.chosen
      → All (IsAllowed range taken self) later.chosen
  unfolding explicit_ports
  explicit_ports-All [] progress later h all =
      let same : later ≡ progress = ground (arith, h) in rw same all
  explicit_ports-All ((key, target) ∷ entries) progress later h all =
      elim (Bool-cases (is_auto fold range taken self key)) [
        | inl auto ↦ explicit_ports-All entries progress later (ground (arith, h, auto)) all
        | inr named ↦ elim (Round-cases (take_explicit range taken self key target progress)) [
          | inl (status, error, e) ↦ absurd (ground (arith, h, named, e))
          | inr (next, e) ↦
              explicit_ports-All entries next later (ground (arith, h, named, e))
                (take_explicit-All key target progress next e all)
        ]
      ]

  in_pool :
      (r : PortRange) (port : ℕ)
      → range ≡ some r
      → r.start ≤ port
      → suc port ≤ r.start + (suc r.end - r.start)
      → outside range port ≡ false
  unfolding outside
  in_pool r port pool low high = rw pool (ground (arith, low, high))

  take_auto-All :
      (target : String) (progress later : Progress)
      → take_auto range taken self target progress ≡ went later
      → All (IsAllowed range taken self) progress.chosen
      → All (IsAllowed range taken self) later.chosen
  unfolding take_auto is_free
  take_auto-All target progress later h all = elim (Option-cases range) [
    | inl bare ↦ absurd (ground (arith, h, bare))
    | inr (r, pool) ↦
        elim (Option-cases (first_free taken self progress.chosen (suc r.end - r.start) r.start)) [
          | inl full ↦ absurd (ground (arith, h, pool, full))
          | inr (port, found) ↦
              let (free, low, high) =
                first_free-lem taken self progress.chosen (suc r.end - r.start) r.start port
                  found in
              let same : later ≡ choose port target progress = ground (arith, h, pool, found) in
              rw same (
                choose-All port target progress
                  (record { inside = in_pool r port pool low high; unheld = ground (arith, free) })
                  all)
        ]
  ]

  auto_ports-All :
      (entries : Assoc String) (progress later : Progress)
      → auto_ports fold range taken self entries progress ≡ went later
      → All (IsAllowed range taken self) progress.chosen
      → All (IsAllowed range taken self) later.chosen
  unfolding auto_ports
  auto_ports-All [] progress later h all =
      let same : later ≡ progress = ground (arith, h) in rw same all
  auto_ports-All ((key, target) ∷ entries) progress later h all =
      elim (Bool-cases (is_auto fold range taken self key)) [
        | inr named ↦ auto_ports-All entries progress later (ground (arith, h, named)) all
        | inl auto ↦ elim (Round-cases (take_auto range taken self target progress)) [
          | inl (status, error, e) ↦ absurd (ground (arith, h, auto, e))
          | inr (next, e) ↦
              auto_ports-All entries next later (ground (arith, h, auto, e))
                (take_auto-All target progress next e all)
        ]
      ]

  -- Every host port that a plan allots lies in the node's range, if the node has one, and is held
  -- by no other server on the node.
  pub plan_ports-All :
      (entries : Assoc String) (ports : List (ℕ × String)) (host_ports : List ℕ)
      → plan_ports fold range taken self entries ≡ allotted ports host_ports
      → All (IsAllowed range taken self) host_ports
  unfolding plan_ports finish
  plan_ports-All entries ports host_ports h =
      elim (Round-cases (explicit_ports fold range taken self entries nothing)) [
        | inl (status, error, e) ↦ absurd (ground (arith, h, e))
        | inr (named, e) ↦ elim (Round-cases (auto_ports fold range taken self entries named)) [
          | inl (status, error, g) ↦ absurd (ground (arith, h, e, g))
          | inr (done, g) ↦
              let same : host_ports ≡ done.chosen = ground (arith, h, e, g) in
              rw same (
                auto_ports-All entries named done g (explicit_ports-All entries nothing named e tt))
        ]
      ]
