-- ===== src/Orchestrator/Scheduler.antt =====
-- The runner of schedules (services/orchestrator/src/scheduler.ts). Times are in epoch
-- milliseconds, not before 1970.
pub mod Table
pub mod Once
use nexus_infra.Prelude.{
  ℕ, zero, suc, ◌+◌, ◌-◌, ◌*◌, ◌/◌, ◌%◌, ltb, String, Bool, true, false, not, ◌&&◌, ◌||◌, Option,
  none, some, List, [], ◌∷◌, ◌++◌, if◌then◌else◌, ◌==◌, filter, str_eq,
}
use nexus_infra.Billing.Calendar.{month_ms, ms_per_day}
use nexus_infra.Orchestrator.Cron.{UtcDate, cron_matches}
use nexus_infra.Orchestrator.Store.Rows.{ServerScheduleRecord, UpdateServerScheduleInput, Store}
use nexus_infra.Orchestrator.Store.Extras.{list_all_schedules, update_schedule}

-- What an action is asked for; the actions themselves are a parameter.
pub data ScheduleAction : Type 0 where
  restart : (deployment_id : String) → ScheduleAction
  backup : (deployment_id : String) → ScheduleAction
  update : (deployment_id : String) → ScheduleAction

-- What a Date says in UTC, by a walk over the months from the one that is `k` months after January
-- 1970 and begins at `start`. A month is longer than a day: a round for each day is enough.
unfoldable pub date_in : ℕ → ℕ → ℕ → UtcDate
date_in k start t = record {
  minute = t / 60000 % 60;
  hour = t / 3600000 % 24;
  day = 1 + (t - start) / ms_per_day;
  month = 1 + k % 12;
  weekday = (t / ms_per_day + 4) % 7;
}

unfoldable pub date_from : ℕ → ℕ → ℕ → ℕ → UtcDate
date_from zero k start t = date_in k start t
date_from (suc fuel) k start t = elim (ltb t (start + month_ms k)) [
  | true ↦ date_in k start t
  | false ↦ date_from fuel (suc k) (start + month_ms k) t
]

unfoldable pub utc : ℕ → UtcDate
utc t = date_from (t / ms_per_day) 0 0 t

-- `iso.slice(0, 16)`
abbrev pub minute_of : ℕ → ℕ
minute_of at = at / 60000

unfoldable pub ran_in : ℕ → Option ℕ → Bool
ran_in minute none = false
ran_in minute (some at) = minute_of at == minute

-- The store and the actions begun so far.
pub record World : Type 0 where
  pub store : Store
  pub begun : List ScheduleAction

abbrev pub stamp : ℕ → UpdateServerScheduleInput
stamp now = record {
  name = none;
  cron = none;
  action = none;
  enabled = none;
  last_run_at = some (some now);
}

-- A Date in a minute says what it says at the minute's start.
unfoldable pub is_due : ℕ → ServerScheduleRecord → Bool
is_due now x =
    x.enabled
    && cron_matches x.cron (utc (minute_of now * 60000))
    && not (ran_in (minute_of now) x.last_run_at)

unfoldable pub select_due : List ServerScheduleRecord → ℕ → List ServerScheduleRecord
select_due schedules now = filter (is_due now) schedules

-- `perform` is what the injected actions do to the store, and whether they throw.
module _ (perform : ScheduleAction → Store → Store × Bool) where
  unfoldable pub attempt : ScheduleAction → World → World × Bool
  attempt action w =
      let (s, throws) = perform action w.store in
      (record { store = s; begun = w.begun ++ action ∷ [] }, throws)

  -- Whether it throws stands beside the world after it. Unknown actions are ignored.
  unfoldable pub run_schedule_action : ServerScheduleRecord → World → World × Bool
  run_schedule_action x w =
      if str_eq x.action "restart"
      then attempt (restart x.deployment_id) w
      else if str_eq x.action "backup"
      then attempt (backup x.deployment_id) w
      else if str_eq x.action "update"
      then attempt (update x.deployment_id) w
      else (w, false)

  -- `try { … } catch {}`
  unfoldable pub caught : World × Bool → World
  caught (w, throws) = w

  unfoldable pub run_due : ℕ → List ServerScheduleRecord → World → World
  run_due now [] w = w
  run_due now (x ∷ xs) w =
      let after = caught (run_schedule_action x w) in
      run_due now xs (record after { store = (update_schedule x.id (stamp now) after.store).0 })

  -- The world after it, and what ran.
  unfoldable pub tick_schedules : ℕ → Store → World × List ServerScheduleRecord
  tick_schedules now s =
      let due = select_due (list_all_schedules s) now in
      (run_due now due (record { store = s; begun = [] }), due)
