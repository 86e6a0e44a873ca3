-- ===== src/Orchestrator/ScheduleTests.antt =====
-- Tests and instances of the theorems about schedules.
use nexus_infra.Prelude.{Bool, ℕ, inl, ◌==◌, ◌≡◌, refl, true, false, none, List, [], ◌∷◌, arith}
use nexus_infra.Prelude.Text.{trim, is_space}
use nexus_infra.Prelude.Assoc.{lookup}
use nexus_infra.Orchestrator.Cron.{
  double, unit_of, rounded, finite, is_finite, UtcDate, cron_matches, is_valid_cron, parse_field,
  cron_fields, fields_match, fields_valid, day_matches, split, drop_empty, parts_values,
  part_values, step_of, range_of, bounds_of, is_star, values_from, parse_int, parse_digits,
  digits_from, first_piece, second_piece,
}
use nexus_infra.Orchestrator.Cron.Fields.{SomeNames}
use nexus_infra.Orchestrator.Store.Rows.{ServerScheduleRecord, Store, empty_store}
use nexus_infra.Billing.Calendar.{month_ms, days_in_month, is_leap}
use nexus_infra.Orchestrator.Store.Extras.{list_all_schedules}
use nexus_infra.Orchestrator.Scheduler.{tick_schedules, utc, date_from, date_in}
use nexus_infra.Orchestrator.Scheduler.Table.{IsTable}
use nexus_infra.Orchestrator.Scheduler.Once.{all_asked, CountsExactly, tick_schedules-again}
use nexus_infra.Orchestrator.Cron.Fields.{fields_counted, all_count, counts_exactly}
use nexus_infra.Orchestrator.Scheduler.{
  restart, ScheduleAction, attempt, run_schedule_action, caught, run_due, select_due, is_due,
  ran_in,
}

-- "*/20,7"
abbrev field : List ℕ
field = 42 ∷ 47 ∷ 50 ∷ 48 ∷ 44 ∷ 55 ∷ []

field_values : parse_field field 0 59 ≡ 0 ∷ 20 ∷ 40 ∷ 7 ∷ []
unfolding parse_field split parts_values part_values step_of range_of bounds_of is_star values_from
    parse_int parse_digits digits_from first_piece second_piece double unit_of rounded finite
    is_finite
field_values = refl

field_names : SomeNames 0 59 (split (λ c. c == 44) field) 20
unfolding split step_of range_of bounds_of is_star parse_int parse_digits digits_from first_piece
    second_piece double unit_of rounded finite is_finite
field_names = inl (record {
  step = 20;
  lo = 0;
  hi = 59;
  step_read = refl;
  range_read = refl;
  named = record {
    steps = 1;
    reached = refl;
    low = omega arith;
    high = omega arith;
    last = omega arith;
  };
})

-- Sunday, 4 January 1970, 06:00.
abbrev sunday : UtcDate
sunday = record { minute = 0; hour = 6; day = 4; month = 1; weekday = 0 }

sunday_read : utc 280859999 ≡ sunday
unfolding utc date_from date_in month_ms days_in_month is_leap
sunday_read = refl

leap_day_read : (utc 68169600000).day ≡ 29
unfolding utc date_from date_in month_ms days_in_month is_leap
leap_day_read = refl

sunday_matches : cron_matches "0 6 * * 7" sunday ≡ true
unfolding cron_matches cron_fields fields_match day_matches trim is_space drop_empty parse_field
    split parts_values part_values step_of range_of bounds_of is_star values_from parse_int
    parse_digits digits_from first_piece second_piece double unit_of rounded finite is_finite
sunday_matches = refl

backwards_refused : is_valid_cron "5-1 * * * *" ≡ false
unfolding is_valid_cron cron_fields fields_valid trim is_space drop_empty parse_field split
    parts_values part_values step_of range_of bounds_of is_star values_from parse_int parse_digits
    digits_from first_piece second_piece double unit_of rounded finite is_finite
backwards_refused = refl

abbrev nightly : ServerScheduleRecord
nightly = record {
  id = "s1";
  deployment_id = "d1";
  name = "nightly";
  cron = "0 6 * * *";
  action = "restart";
  enabled = true;
  last_run_at = none;
  created_at = 1;
}

unfoldable with_schedule : Store
with_schedule = record empty_store { schedules = ("s1", nightly) ∷ [] }

with_schedule-IsTable : IsTable with_schedule.schedules
unfolding with_schedule lookup
with_schedule-IsTable = (refl, refl, tt)

-- Actions that all throw.
abbrev failing : ScheduleAction → Store → Store × Bool
failing action s = (s, true)

restarts_once : (tick_schedules failing 21600100 with_schedule).0.begun ≡ restart "d1" ∷ []
unfolding tick_schedules select_due list_all_schedules is_due ran_in run_due caught
    run_schedule_action attempt with_schedule empty_store utc date_from date_in month_ms
    days_in_month is_leap cron_matches cron_fields fields_match day_matches trim is_space drop_empty
    parse_field split parts_values part_values step_of range_of bounds_of is_star values_from
    parse_int parse_digits digits_from first_piece second_piece double unit_of rounded finite
    is_finite
restarts_once = refl

nightly_counts : CountsExactly nightly
unfolding fields_counted all_count counts_exactly cron_fields trim is_space drop_empty split step_of
    range_of bounds_of is_star parse_int parse_digits digits_from first_piece second_piece double
    unit_of rounded finite is_finite
nightly_counts = refl

tick_schedules-again_example :
    ((tick_schedules failing 21600100 with_schedule).0.begun
      ≡ all_asked (select_due (list_all_schedules with_schedule) 21600100))
    × (tick_schedules failing 21600900 (tick_schedules failing 21600100 with_schedule).0.store ≡ (
      record { store = (tick_schedules failing 21600100 with_schedule).0.store; begun = [] },
      [],
    ))
unfolding list_all_schedules with_schedule
tick_schedules-again_example =
    tick_schedules-again failing (λ action s. refl) 21600100 21600900 with_schedule
      with_schedule-IsTable (nightly_counts, tt) (omega arith)
