-- ===== src/Orchestrator/Scheduler/Once.antt =====
-- A schedule runs at most once a minute (services/orchestrator/src/scheduler.ts).
use nexus_infra.Prelude.{
  sym, All, ap, ◌++◌, if◌then◌else◌, ℕ, ◌≡◌, refl, sym, ◌∙◌, Bool, true, false, some, List, [], ◌∷◌,
  any, filter, str_eq, eq_iff, arith, inl, inr, Bool-cases,
}
use mathlib.Core.List.{append-nil, append_assoc}
use nexus_infra.Orchestrator.Cron.{cron_fields}
use nexus_infra.Orchestrator.Cron.Fields.{fields_counted}
use nexus_infra.Prelude.Assoc.{Assoc, lookup, values}
use nexus_infra.Prelude.Rows.{IsRow, IsRow-lookup}
use nexus_infra.Orchestrator.Store.Rows.{ServerScheduleRecord, Store}
use nexus_infra.Orchestrator.Store.Extras.{list_all_schedules}
use nexus_infra.Orchestrator.Scheduler.{
  ScheduleAction, restart, backup, update, World, attempt, run_schedule_action, caught, minute_of,
  ran_in, is_due, select_due, run_due, tick_schedules,
}
use nexus_infra.Orchestrator.Scheduler.Table.{
  IsTable, lookup-row, ran, update_schedule-IsTable, Found, stamped_now, as_before,
  update_schedule-Found,
}

any-due :
    (now : ℕ) (y : ServerScheduleRecord) (m : Assoc ServerScheduleRecord)
    → IsRow y m
    → is_due now y ≡ true
    → any (λ x. str_eq x.id y.id) (filter (is_due now) (values m)) ≡ true
any-due now y [] row due = absurd row
any-due now y ((key, x) ∷ m) (inl e) due = ground (arith, e, due, eq_iff x.id y.id)
any-due now y ((key, x) ∷ m) (inr row) due = ground (arith, any-due now y m row due)

is_due-same_minute :
    (now again : ℕ) (y : ServerScheduleRecord)
    → minute_of again ≡ minute_of now
    → is_due again y ≡ is_due now y
unfolding is_due
is_due-same_minute now again y same = rw same refl

stamped-not_due :
    (now : ℕ) (y : ServerScheduleRecord) → y.last_run_at ≡ some now → is_due now y ≡ false
unfolding is_due ran_in
stamped-not_due now y ran_now = ground (arith, ran_now)

filter-none :
    (p : ServerScheduleRecord → Bool) (m : Assoc ServerScheduleRecord)
    → ((y : ServerScheduleRecord) → IsRow y m → p y ≡ false)
    → filter p (values m) ≡ []
filter-none p [] idle = refl
filter-none p ((key, x) ∷ m) idle =
    ground (arith, idle x (inl refl), filter-none p m (λ y row. idle y (inr row)))

-- What a schedule asks for.
abbrev pub asked : ServerScheduleRecord → List ScheduleAction
asked x =
    if str_eq x.action "restart"
    then restart x.deployment_id ∷ []
    else if str_eq x.action "backup"
    then backup x.deployment_id ∷ []
    else if str_eq x.action "update"
    then update x.deployment_id ∷ []
    else []

abbrev pub all_asked : List ServerScheduleRecord → List ScheduleAction
all_asked [] = []
all_asked (x ∷ xs) = asked x ++ all_asked xs

-- The actions leave the schedules alone.
abbrev pub KeepsSchedules : (ScheduleAction → Store → Store × Bool) → Type 0
KeepsSchedules perform =
    (action : ScheduleAction) (s : Store) → (perform action s).0.schedules ≡ s.schedules

-- No loop over a field of the schedule's cron expression comes to numbers that doubles round.
abbrev pub CountsExactly : ServerScheduleRecord → Type 0
CountsExactly x = fields_counted (cron_fields x.cron) ≡ true

module _ (perform : ScheduleAction → Store → Store × Bool) (keeps : KeepsSchedules perform) where
  abbrev done : ServerScheduleRecord → World → World
  done x w = caught perform (run_schedule_action perform x w)

  done-schedules :
      (x : ServerScheduleRecord) (w : World) → (done x w).store.schedules ≡ w.store.schedules
  unfolding caught run_schedule_action attempt
  done-schedules x w = ground (
    arith,
    keeps (restart x.deployment_id) w.store,
    keeps (backup x.deployment_id) w.store,
    keeps (update x.deployment_id) w.store,
  )

  done-begun : (x : ServerScheduleRecord) (w : World) → (done x w).begun ≡ w.begun ++ asked x
  unfolding caught run_schedule_action attempt
  done-begun x w = ground (arith, append-nil w.begun)

  run_due-IsTable :
      (now : ℕ) (xs : List ServerScheduleRecord) (w : World)
      → IsTable w.store.schedules
      → IsTable (run_due perform now xs w).store.schedules
  unfolding run_due
  run_due-IsTable now [] w t = t
  run_due-IsTable now (x ∷ xs) w t =
      run_due-IsTable now xs (record (done x w) { store = ran now x.id (done x w).store })
        (update_schedule-IsTable now x.id (done x w).store (rw (done-schedules x w) t))

  run_due-Found :
      (now : ℕ) (xs : List ServerScheduleRecord) (w : World) (y : ServerScheduleRecord)
      → lookup y.id (run_due perform now xs w).store.schedules ≡ some y
      → Found now xs w.store y
  unfolding run_due
  run_due-Found now [] w y e = as_before e refl
  run_due-Found now (x ∷ xs) w y e =
      let after = record (done x w) { store = ran now x.id (done x w).store } in
      elim (run_due-Found now xs after y e) [
        | stamped_now now_ran ↦ stamped_now now_ran
        | as_before there out ↦ elim (update_schedule-Found now x y (done x w).store there) [
          | stamped_now now_ran ↦ stamped_now now_ran
          | as_before before other ↦
              as_before (rw (done-schedules x w) at before) (ground (arith, out, other))
        ]
      ]

  run_due-begun :
      (now : ℕ) (xs : List ServerScheduleRecord) (w : World)
      → (run_due perform now xs w).begun ≡ w.begun ++ all_asked xs
  unfolding run_due
  run_due-begun now [] w = sym (append-nil w.begun)
  run_due-begun now (x ∷ xs) w =
      run_due-begun now xs (record (done x w) { store = ran now x.id (done x w).store })
      ∙ ap (λ actions. actions ++ all_asked xs) (done-begun x w)
      ∙ append_assoc w.begun (asked x) (all_asked xs)

  ticked-not_due :
      (now : ℕ) (s : Store) (y : ServerScheduleRecord)
      → IsTable s.schedules
      → IsRow y (tick_schedules perform now s).0.store.schedules
      → is_due now y ≡ false
  unfolding tick_schedules select_due list_all_schedules
  ticked-not_due now s y t row =
      let due = filter (is_due now) (values s.schedules) in
      let w : World = record { store = s; begun = [] } in
      let found =
        lookup-row y (run_due perform now due w).store.schedules (run_due-IsTable now due w t)
          row in
      elim (run_due-Found now due w y found) [
        | stamped_now now_ran ↦ stamped-not_due now y now_ran
        | as_before there out ↦ elim (Bool-cases (is_due now y)) [
          | inr idle ↦ idle
          | inl is ↦ absurd (
              ground
                (arith, out, any-due now y s.schedules (IsRow-lookup y.id y s.schedules there) is))
        ]
      ]

  -- A look at the schedules begins the action of each that is due, once and in their order, whether
  -- or not the actions before it throw. Looking again in the same minute begins nothing and changes
  -- nothing. This is for actions that leave the schedules alone, and for cron expressions whose
  -- loops come to no number that doubles round.
  pub tick_schedules-again :
      (now again : ℕ) (s : Store)
      → IsTable s.schedules
      → All CountsExactly (list_all_schedules s)
      → minute_of again ≡ minute_of now
      → ((tick_schedules perform now s).0.begun ≡ all_asked (select_due (list_all_schedules s) now))
        × (tick_schedules perform again (tick_schedules perform now s).0.store
            ≡ (record { store = (tick_schedules perform now s).0.store; begun = [] }, []))
  tick_schedules-again now again s t counted same =
      let s' = (tick_schedules perform now s).0.store in
      let idle : filter (is_due again) (values s'.schedules) ≡ [] =
        filter-none (is_due again) s'.schedules
          (λ y row. is_due-same_minute now again y same ∙ ticked-not_due now s y t row) in
      (
        unfold tick_schedules in
            run_due-begun now (select_due (list_all_schedules s) now)
              (record { store = s; begun = [] }),
        unfold tick_schedules select_due list_all_schedules run_due in rw idle refl,
      )
