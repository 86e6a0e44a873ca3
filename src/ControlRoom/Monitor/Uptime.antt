-- ===== src/ControlRoom/Monitor/Uptime.antt =====
-- What the monitor counts (services/control-room/src/monitor.ts).
use nexus_infra.Prelude.{
  ℕ, ◌+◌, ◌-◌, ◌≤◌, String, ◌≡◌, refl, Option, some, List, [], ◌∷◌, leb, length, length-append,
  arith, str_eq, All, Option-cases, inl, inr, Bool-cases,
}
use nexus_infra.Prelude.Assoc.{Assoc, lookup, insert}
use nexus_infra.ControlRoom.Monitor.{
  Status, healthy, same_status, status_for, healthy_overlap_ms, Transition, Tracked, Monitor,
  create, advance, shift, record_transition, transition_to, see, first_beat, beat, heartbeat,
  evaluate_one, evaluate_all, evaluate, report,
}

-- The counters of one source agree: healthy time is observed time, and observed time is what has
-- passed between the first beat and the last evaluation. The history is within its bound.
pub record Sound (history_limit : ℕ) (t : Tracked) : Type 0 where
  pub within : t.healthy_ms ≤ t.observed_ms
  pub observed : t.observed_ms + t.first_seen ≡ t.last_evaluated
  pub bounded : length t.transitions ≤ history_limit

record_transition-bounded :
    (history_limit : ℕ) (t : Transition) (ts : List Transition)
    → length ts ≤ history_limit
    → length (record_transition history_limit t ts) ≤ history_limit
unfolding record_transition shift
record_transition-bounded limit t [] h = ground (arith, h)
record_transition-bounded limit t (u ∷ us) h = ground (arith, h, length-append us (t ∷ []))

module _ (limit : ℕ) where
  transition_to-Sound :
      (status : Status) (now : ℕ) (t : Tracked)
      → Sound limit t
      → Sound limit (transition_to limit status now t)
  unfolding transition_to
  transition_to-Sound status now t s = elim (Bool-cases (same_status t.status status)) [
    | inl e ↦ rw e s
    | inr e ↦ rw e (record {
      within = s.within;
      observed = s.observed;
      bounded = record_transition-bounded limit _ t.transitions s.bounded;
    })
  ]

  advance-Sound : (now : ℕ) (t : Tracked) → Sound limit t → Sound limit (advance now t)
  unfolding advance healthy_overlap_ms
  advance-Sound now t s = elim (Bool-cases (leb now t.last_evaluated)) [
    | inl e ↦ rw e s
    | inr e ↦ rw e (record {
      within = ground (arith, s.within, e);
      observed = ground (arith, s.observed, e);
      bounded = s.bounded;
    })
  ]

  beat-Sound : (now : ℕ) (t : Tracked) → Sound limit t → Sound limit (beat limit now t)
  unfolding beat see
  beat-Sound now t s =
      let a = advance-Sound now t s in
      transition_to-Sound healthy now (see now (advance now t))
        (record { within = a.within; observed = a.observed; bounded = a.bounded })

  first_beat-Sound : (source : String) (now : ℕ) → Sound limit (first_beat source now)
  unfolding first_beat
  first_beat-Sound source now = record {
    within = omega arith;
    observed = omega arith;
    bounded = omega arith;
  }

  lookup-Sound :
      (source : String) (t : Tracked) (sources : Assoc Tracked)
      → All (λ p. Sound limit p.1) sources
      → lookup source sources ≡ some t
      → Sound limit t
  unfolding lookup
  lookup-Sound source t [] all h = ground (arith, h)
  lookup-Sound source t ((k, x) ∷ sources) (s, all) h = elim (Bool-cases (str_eq k source)) [
    | inl e ↦ let same : t ≡ x = ground (arith, h, e) in rw same s
    | inr e ↦ lookup-Sound source t sources all (ground (arith, h, e))
  ]

  insert-Sound :
      (source : String) (t : Tracked) (sources : Assoc Tracked)
      → Sound limit t
      → All (λ p. Sound limit p.1) sources
      → All (λ p. Sound limit p.1) (insert source t sources)
  unfolding insert
  insert-Sound source t [] st all = (st, tt)
  insert-Sound source t ((k, x) ∷ sources) st (s, all) = elim (Bool-cases (str_eq k source)) [
    | inl e ↦ rw e (st, all)
    | inr e ↦ rw e (s, insert-Sound source t sources st all)
  ]

  evaluate_all-Sound :
      (now : ℕ) (sources : Assoc Tracked)
      → All (λ p. Sound limit p.1) sources
      → All (λ p. Sound limit p.1) (evaluate_all limit now sources)
  unfolding evaluate_all evaluate_one
  evaluate_all-Sound now [] all = all
  evaluate_all-Sound now ((k, x) ∷ sources) (s, all) = (
    transition_to-Sound (status_for (advance now x).last_seen now) now (advance now x)
        (advance-Sound now x s),
    evaluate_all-Sound now sources all,
  )

-- What the monitor is told: a heartbeat of a source, or a tick of the timer.
pub data Told : Type 0 where
  heard : (source : String) (now : ℕ) → Told
  tick : (now : ℕ) → Told

unfoldable pub tell : List Told → Monitor → Monitor
tell [] monitor = monitor
tell (heard source now ∷ rest) monitor = tell rest (heartbeat source now monitor)
tell (tick now ∷ rest) monitor = tell rest (evaluate now monitor)

pub record AllSound (monitor : Monitor) : Type 0 where
  pub each : All (λ p. Sound monitor.history_limit p.1) monitor.sources

heartbeat-AllSound :
    (source : String) (now : ℕ) (monitor : Monitor)
    → AllSound monitor
    → AllSound (heartbeat source now monitor)
unfolding heartbeat
heartbeat-AllSound source now monitor all = elim (Option-cases (lookup source monitor.sources)) [
  | inl e ↦ rw e (record {
    each =
        insert-Sound monitor.history_limit source (first_beat source now) monitor.sources
          (first_beat-Sound monitor.history_limit source now) all.each;
  })
  | inr (t, e) ↦ rw e (record {
    each =
        insert-Sound monitor.history_limit source (beat monitor.history_limit now t) monitor.sources
          (beat-Sound monitor.history_limit now t
            (lookup-Sound monitor.history_limit source t monitor.sources all.each e))
          all.each;
  })
]

evaluate-AllSound :
    (now : ℕ) (monitor : Monitor) → AllSound monitor → AllSound (evaluate now monitor)
unfolding evaluate
evaluate-AllSound now monitor all = record {
  each = evaluate_all-Sound monitor.history_limit now monitor.sources all.each;
}

tell-AllSound :
    (told : List Told) (monitor : Monitor) → AllSound monitor → AllSound (tell told monitor)
unfolding tell
tell-AllSound [] monitor all = all
tell-AllSound (heard source now ∷ rest) monitor all =
    tell-AllSound rest (heartbeat source now monitor) (heartbeat-AllSound source now monitor all)
tell-AllSound (tick now ∷ rest) monitor all =
    tell-AllSound rest (evaluate now monitor) (evaluate-AllSound now monitor all)

-- After any heartbeats and ticks, at times in any order, every source's healthy time is at most
-- its observed time, its observed time is the span from its first beat to its last evaluation, and
-- its history is no longer than the limit.
pub tell-create-AllSound :
    (told : List Told) (history_limit : Option ℕ) → AllSound (tell told (create history_limit))
unfolding create
tell-create-AllSound told history_limit =
    tell-AllSound told (create history_limit) (record { each = tt })

transition_to-keeps :
    (limit : ℕ) (status : Status) (now : ℕ) (t : Tracked)
    → let moved = transition_to limit status now t in
      (moved.last_seen ≡ t.last_seen)
      × (moved.last_evaluated ≡ t.last_evaluated)
      × (moved.healthy_ms ≡ t.healthy_ms)
      × (moved.observed_ms ≡ t.observed_ms)
unfolding transition_to
transition_to-keeps limit status now t = elim (Bool-cases (same_status t.status status)) [
  | inl e ↦ rw e (refl, refl, refl, refl)
  | inr e ↦ rw e (refl, refl, refl, refl)
]

-- What a report counts does not change when the clock of the source is advanced first.
advance-report :
    (now : ℕ) (t : Tracked)
    → let moved = advance now t in
      (moved.last_seen ≡ t.last_seen)
      × (moved.healthy_ms + healthy_overlap_ms moved.last_seen moved.last_evaluated now
          ≡ t.healthy_ms + healthy_overlap_ms t.last_seen t.last_evaluated now)
      × (moved.observed_ms + (now - moved.last_evaluated)
          ≡ t.observed_ms + (now - t.last_evaluated))
unfolding advance healthy_overlap_ms
advance-report now t = elim (Bool-cases (leb now t.last_evaluated)) [
  | inl e ↦ rw e (refl, refl, refl)
  | inr e ↦ rw e (refl, ground (arith, e), ground (arith, e))
]

-- Reading does not depend on the timer: a report at one time is the same, but for the remembered
-- transitions, whether or not the source was evaluated at that time before.
pub report-evaluate_one :
    (limit now : ℕ) (t : Tracked)
    → let before = report now t in
      let after = report now (evaluate_one limit now t) in
      (after.status ≡ before.status)
      × (after.healthy_ms ≡ before.healthy_ms)
      × (after.observed_ms ≡ before.observed_ms)
      × (after.uptime_percent ≡ before.uptime_percent)
      × (after.last_seen_ms_ago ≡ before.last_seen_ms_ago)
unfolding report evaluate_one
report-evaluate_one limit now t =
    let (seen, at, health, observed) =
      transition_to-keeps limit (status_for (advance now t).last_seen now) now (advance now t) in
    let (seen1, health1, observed1) = advance-report now t in
    rw (seen, at, health, observed, health1, observed1, seen1) (refl, refl, refl, refl, refl)
