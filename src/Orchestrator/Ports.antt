-- ===== src/Orchestrator/Ports.antt =====
-- Host ports of a node (services/orchestrator/src/portPool.ts). A port map is the list of its
-- entries as `Object.entries` gives them; `fold` is `String.prototype.toLowerCase`.
pub mod Allotted
use Prim.Native.Char.{code}
use Prim.Native.String
use nexus_infra.Prelude.{
  ℕ, zero, suc, ◌+◌, ◌-◌, ◌*◌, String, Bool, true, false, Option, none, some, List, [], ◌∷◌, ◌++◌,
  ◌&&◌, ◌||◌, not, ltb, leb, ◌==◌, str_eq, if◌then◌else◌, any, concat,
}
use nexus_infra.Prelude.Assoc.{Assoc}
use nexus_infra.Prelude.Text.{number_text}

pub record PortRange : Type 0 where
  pub start : ℕ
  pub end : ℕ

pub record Holder : Type 0 where
  pub deployment_id : String
  pub name : String

abbrev pub TakenPorts : Type 0
TakenPorts = List (ℕ × Holder)

pub data PortPlan : Type 0 where
  allotted : (ports : List (ℕ × String)) (host_ports : List ℕ) → PortPlan
  refused : (status : ℕ) (error : String) → PortPlan

-- The number that a text of decimal digits stands for, from the value of the digits before.
unfoldable pub digits_value : ℕ → String → Option ℕ
digits_value value String.[] = some value
digits_value value (String.◌∷◌ c s) =
    let rest = digits_value (10 * value + (code c - 48)) s in
    if leb 48 (code c) && leb (code c) 57 then rest else none

unfoldable pub in_bounds : Option ℕ → Option ℕ
in_bounds none = none
in_bounds (some n) = if leb 1 n && leb n 65535 then some n else none

unfoldable pub as_port : String → Option ℕ
as_port key = if str_eq key "" then none else in_bounds (digits_value 0 key)

unfoldable pub holder_of : ℕ → TakenPorts → Option Holder
holder_of port [] = none
holder_of port ((p, holder) ∷ taken) = if p == port then some holder else holder_of port taken

-- `chosen.add(port)`
unfoldable pub add_port : ℕ → List ℕ → List ℕ
add_port port chosen = if any (λ p. p == port) chosen then chosen else chosen ++ port ∷ []

-- `resolved[String(port)] = containerPort`
unfoldable pub set_port : ℕ → String → List (ℕ × String) → List (ℕ × String)
set_port port target [] = (port, target) ∷ []
set_port port target ((p, t) ∷ ports) =
    if p == port then (p, target) ∷ ports else (p, t) ∷ set_port port target ports

-- `self`, the server that asks, when it is known.
unfoldable pub is_self : Option String → Holder → Bool
is_self none holder = false
is_self (some id) holder = str_eq holder.deployment_id id

-- No other server holds the port.
unfoldable pub is_open : TakenPorts → Option String → ℕ → Bool
is_open taken self port = elim (holder_of port taken) [
  | none ↦ true
  | some holder ↦ is_self self holder
]

unfoldable pub outside : Option PortRange → ℕ → Bool
outside none port = false
outside (some range) port = ltb port range.start || ltb range.end port

unfoldable pub is_free : TakenPorts → Option String → List ℕ → ℕ → Bool
is_free taken self chosen port = not (any (λ p. p == port) chosen) && is_open taken self port

-- The inner loop: the first free port of `count` ports from `p` on.
unfoldable pub first_free : TakenPorts → Option String → List ℕ → ℕ → ℕ → Option ℕ
first_free taken self chosen zero p = none
first_free taken self chosen (suc count) p =
    let later = first_free taken self chosen count (suc p) in
    if is_free taken self chosen p then some p else later

-- What has been chosen and resolved so far.
pub record Progress : Type 0 where
  pub chosen : List ℕ
  pub resolved : List (ℕ × String)

pub data Round : Type 0 where
  went : Progress → Round
  stopped : (status : ℕ) (error : String) → Round

unfoldable pub choose : ℕ → String → Progress → Progress
choose port target progress = record {
  chosen = add_port port progress.chosen;
  resolved = set_port port target progress.resolved;
}

unfoldable pub range_text : PortRange → String
range_text range = concat (number_text range.start ∷ "–" ∷ number_text range.end ∷ [])

unfoldable pub outside_text : Option PortRange → ℕ → String
outside_text none port = ""
outside_text (some range) port =
    concat
      ("port " ∷ number_text port ∷ " is outside this node's port range " ∷ range_text range ∷ [])

unfoldable pub holder_name : Option Holder → String
holder_name none = ""
holder_name (some holder) = holder.name

-- One explicit port.
unfoldable pub take_explicit :
    Option PortRange → TakenPorts → Option String → String → String → Progress → Round
take_explicit range taken self key target progress = elim (as_port key) [
  | none ↦
      stopped 400 (concat (key ∷ " is not a port — use a number from 1 to 65535, or \"auto\"" ∷ []))
  | some port ↦
      if outside range port
      then stopped 400 (outside_text range port)
      else if not (is_open taken self port)
      then stopped 409 (
          concat (
            "port "
            ∷ number_text port
            ∷ " is already used by "
            ∷ holder_name (holder_of port taken)
            ∷ " on this node"
            ∷ []))
      else went (choose port target progress)
]

-- One `auto` port.
unfoldable pub take_auto : Option PortRange → TakenPorts → Option String → String → Progress → Round
take_auto none taken self target progress =
    stopped 400 "this node has no port range to choose from — name a port, or give the node a range"
take_auto (some range) taken self target progress =
    elim (first_free taken self progress.chosen (suc range.end - range.start) range.start) [
      | none ↦
          stopped 409 (concat ("no free port left in this node's range " ∷ range_text range ∷ []))
      | some port ↦ went (choose port target progress)
    ]

module _ (fold : String → String) (range : Option PortRange) (taken : TakenPorts)
    (self : Option String) where
  unfoldable pub is_auto : String → Bool
  is_auto key = str_eq (fold key) "auto"

  unfoldable pub explicit_ports : Assoc String → Progress → Round
  explicit_ports [] progress = went progress
  explicit_ports ((key, target) ∷ entries) progress =
      if is_auto key
      then explicit_ports entries progress
      else elim (take_explicit range taken self key target progress) [
        | stopped status error ↦ stopped status error
        | went later ↦ explicit_ports entries later
      ]

  unfoldable pub auto_ports : Assoc String → Progress → Round
  auto_ports [] progress = went progress
  auto_ports ((key, target) ∷ entries) progress =
      if is_auto key
      then elim (take_auto range taken self target progress) [
        | stopped status error ↦ stopped status error
        | went later ↦ auto_ports entries later
      ]
      else auto_ports entries progress

  unfoldable pub finish : Round → PortPlan
  finish (stopped status error) = refused status error
  finish (went progress) = allotted progress.resolved progress.chosen

  unfoldable pub plan_ports : Assoc String → PortPlan
  plan_ports ports = finish (elim (explicit_ports ports (record { chosen = []; resolved = [] })) [
    | stopped status error ↦ stopped status error
    | went progress ↦ auto_ports ports progress
  ])

unfoldable pub range_of : Option ℕ → Option ℕ → Option PortRange
range_of (some start) (some end) = some (record { start = start; end = end })
range_of start end = none
