-- ===== src/ControlRoom/Tests.antt =====
-- Tests and instances of the theorems about the monitor.
use nexus_infra.Prelude.{◌≡◌, some, List, [], ◌∷◌}
use nexus_infra.ControlRoom.Monitor.{Tracked, healthy, create, report, evaluate_one}
use nexus_infra.ControlRoom.Monitor.Uptime.{
  Told, heard, tick, tell, AllSound, tell-create-AllSound, report-evaluate_one,
}

abbrev beats : List Told
beats = heard "node-1" 1000 ∷ tick 9000 ∷ heard "node-1" 12000 ∷ tick 12500 ∷ []

tell-create-AllSound_example : AllSound (tell beats (create (some 1)))
tell-create-AllSound_example = tell-create-AllSound beats (some 1)

abbrev seen_once : Tracked
seen_once = record {
  source = "node-1";
  last_seen = 1000;
  first_seen = 1000;
  status = healthy;
  last_evaluated = 1000;
  healthy_ms = 0;
  observed_ms = 0;
  transitions = [];
}

report-evaluate_one_example :
    let before = report 9000 seen_once in
    let after = report 9000 (evaluate_one 50 9000 seen_once) in
    (after.status ≡ before.status)
    × (after.healthy_ms ≡ before.healthy_ms)
    × (after.observed_ms ≡ before.observed_ms)
    × (after.uptime_percent ≡ before.uptime_percent)
    × (after.last_seen_ms_ago ≡ before.last_seen_ms_ago)
report-evaluate_one_example = report-evaluate_one 50 9000 seen_once
