-- ===== src/ControlRoom/Monitor.antt =====
-- The heartbeat monitor (services/control-room/src/monitor.ts). Times are milliseconds.
pub mod Uptime
use nexus_infra.Prelude.{
  ℕ, suc, ◌+◌, ◌-◌, ◌*◌, ◌/◌, String, Bool, Option, none, some, List, [], ◌∷◌, ◌++◌, if◌then◌else◌,
  ltb, leb, ◌==◌, min, max, length, str_eq, or_else, map, true, false, find,
}
use nexus_infra.Prelude.Assoc.{Assoc, lookup, insert, values}

pub data Status : Type 0 where
  healthy : Status
  degraded : Status
  offline : Status

abbrev pub degraded_ms : ℕ
degraded_ms = 3000

abbrev pub offline_ms : ℕ
offline_ms = 10000

unfoldable pub same_status : Status → Status → Bool
same_status healthy healthy = true
same_status degraded degraded = true
same_status offline offline = true
same_status a b = false

unfoldable pub status_for : ℕ → ℕ → Status
status_for last_seen now =
    if leb (last_seen + offline_ms) now
    then offline
    else if leb (last_seen + degraded_ms) now
    then degraded
    else healthy

-- `Math.max(0, …)` of a difference is the subtraction that stops at 0.
unfoldable pub healthy_overlap_ms : ℕ → ℕ → ℕ → ℕ
healthy_overlap_ms last_seen from to =
    let healthy_until = last_seen + degraded_ms in min to healthy_until - max from last_seen

pub record Transition : Type 0 where
  pub from : Status
  pub to : Status
  pub at : ℕ

-- The uptime is in hundredths of a percent.
pub record SourceStatus : Type 0 where
  pub source : String
  pub status : Status
  pub last_seen_ms_ago : ℕ
  pub uptime_percent : ℕ

pub record SourceUptime : Type 0 where
  pub source : String
  pub status : Status
  pub last_seen_ms_ago : ℕ
  pub uptime_percent : ℕ
  pub first_seen : ℕ
  pub observed_ms : ℕ
  pub healthy_ms : ℕ
  pub transitions : List Transition

pub record Tracked : Type 0 where
  pub source : String
  pub last_seen : ℕ
  pub first_seen : ℕ
  pub status : Status
  pub last_evaluated : ℕ
  pub healthy_ms : ℕ
  pub observed_ms : ℕ
  pub transitions : List Transition

pub record Monitor : Type 0 where
  pub sources : Assoc Tracked
  pub history_limit : ℕ

unfoldable pub create : Option ℕ → Monitor
create history_limit = record { sources = []; history_limit = max 1 (or_else history_limit 50) }

unfoldable pub advance : ℕ → Tracked → Tracked
advance now tracked = if leb now tracked.last_evaluated then tracked else record {
  source = tracked.source;
  last_seen = tracked.last_seen;
  first_seen = tracked.first_seen;
  status = tracked.status;
  last_evaluated = now;
  healthy_ms = tracked.healthy_ms + healthy_overlap_ms tracked.last_seen tracked.last_evaluated now;
  observed_ms = tracked.observed_ms + (now - tracked.last_evaluated);
  transitions = tracked.transitions;
}

unfoldable pub shift : List Transition → List Transition
shift [] = []
shift (t ∷ ts) = ts

-- A transition is remembered, and the oldest is dropped when there are too many.
unfoldable pub record_transition : ℕ → Transition → List Transition → List Transition
record_transition history_limit t ts =
    let all = ts ++ t ∷ [] in if ltb history_limit (length all) then shift all else all

unfoldable pub transition_to : ℕ → Status → ℕ → Tracked → Tracked
transition_to history_limit status now tracked =
    if same_status tracked.status status then tracked else record {
      source = tracked.source;
      last_seen = tracked.last_seen;
      first_seen = tracked.first_seen;
      status = status;
      last_evaluated = tracked.last_evaluated;
      healthy_ms = tracked.healthy_ms;
      observed_ms = tracked.observed_ms;
      transitions =
          record_transition history_limit (record { from = tracked.status; to = status; at = now })
            tracked.transitions;
    }

unfoldable pub see : ℕ → Tracked → Tracked
see now tracked = record {
  source = tracked.source;
  last_seen = now;
  first_seen = tracked.first_seen;
  status = tracked.status;
  last_evaluated = tracked.last_evaluated;
  healthy_ms = tracked.healthy_ms;
  observed_ms = tracked.observed_ms;
  transitions = tracked.transitions;
}

unfoldable pub first_beat : String → ℕ → Tracked
first_beat source now = record {
  source = source;
  last_seen = now;
  first_seen = now;
  status = healthy;
  last_evaluated = now;
  healthy_ms = 0;
  observed_ms = 0;
  transitions = [];
}

unfoldable pub beat : ℕ → ℕ → Tracked → Tracked
beat history_limit now tracked =
    transition_to history_limit healthy now (see now (advance now tracked))

unfoldable pub heartbeat : String → ℕ → Monitor → Monitor
heartbeat source now monitor =
    let tracked : Tracked = elim (lookup source monitor.sources) [
      | none ↦ first_beat source now
      | some tracked ↦ beat monitor.history_limit now tracked
    ] in
    record {
      sources = insert source tracked monitor.sources;
      history_limit = monitor.history_limit;
    }

unfoldable pub evaluate_one : ℕ → ℕ → Tracked → Tracked
evaluate_one history_limit now tracked =
    let advanced = advance now tracked in
    transition_to history_limit (status_for advanced.last_seen now) now advanced

unfoldable pub evaluate_all : ℕ → ℕ → Assoc Tracked → Assoc Tracked
evaluate_all history_limit now [] = []
evaluate_all history_limit now ((source, tracked) ∷ sources) =
    (source, evaluate_one history_limit now tracked) ∷ evaluate_all history_limit now sources

unfoldable pub evaluate : ℕ → Monitor → Monitor
evaluate now monitor = record {
  sources = evaluate_all monitor.history_limit now monitor.sources;
  history_limit = monitor.history_limit;
}

-- `Math.round((healthy / observed) * 10000)`, a half rounded up.
unfoldable pub percent : ℕ → ℕ → ℕ
percent healthy_ms observed_ms =
    if observed_ms == 0 then 10000 else (2 * 10000 * healthy_ms + observed_ms) / (2 * observed_ms)

unfoldable pub report : ℕ → Tracked → SourceUptime
report now t =
    let healthy_ms = t.healthy_ms + healthy_overlap_ms t.last_seen t.last_evaluated now in
    let observed_ms = t.observed_ms + (now - t.last_evaluated) in
    record {
      source = t.source;
      status = status_for t.last_seen now;
      last_seen_ms_ago = now - t.last_seen;
      uptime_percent = percent healthy_ms observed_ms;
      first_seen = t.first_seen;
      observed_ms = observed_ms;
      healthy_ms = healthy_ms;
      transitions = t.transitions;
    }

-- `after a b` is `a.localeCompare(b) > 0`.
module _ (after : String → String → Bool) where
  unfoldable pub insert_by_name : SourceUptime → List SourceUptime → List SourceUptime
  insert_by_name u [] = u ∷ []
  insert_by_name u (v ∷ vs) =
      let rest = insert_by_name u vs in if after u.source v.source then v ∷ rest else u ∷ v ∷ vs

  unfoldable pub sort_by_name : List SourceUptime → List SourceUptime
  sort_by_name [] = []
  sort_by_name (u ∷ us) = insert_by_name u (sort_by_name us)

  unfoldable pub uptimes : ℕ → Monitor → List SourceUptime
  uptimes now monitor = sort_by_name (map (report now) (values monitor.sources))

  unfoldable pub summary : SourceUptime → SourceStatus
  summary u = record {
    source = u.source;
    status = u.status;
    last_seen_ms_ago = u.last_seen_ms_ago;
    uptime_percent = u.uptime_percent;
  }

  unfoldable pub snapshot : ℕ → Monitor → List SourceStatus
  snapshot now monitor = map summary (uptimes now monitor)

  unfoldable pub get : String → ℕ → Monitor → Option SourceUptime
  get source now monitor = find (λ u. str_eq u.source source) (uptimes now monitor)
