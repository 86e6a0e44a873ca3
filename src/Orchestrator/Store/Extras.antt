-- ===== src/Orchestrator/Store/Extras.antt =====
-- Databases, backups and schedules of servers in the orchestrator's store
-- (services/orchestrator/src/repository.ts).
use nexus_infra.Prelude.{
  ℕ, String, true, Option, none, some, List, leb, str_eq, or_else, filter, sort_by,
}
use nexus_infra.Prelude.Assoc.{lookup, insert, erase, values}
use nexus_infra.Orchestrator.Store.Rows.{
  ServerDatabaseRecord, CreateServerDatabaseInput, ServerBackupRecord, CreateServerBackupInput,
  ServerScheduleRecord, CreateServerScheduleInput, UpdateServerScheduleInput, Store,
}

unfoldable pub create_database :
    String → ℕ → CreateServerDatabaseInput → Store → Store × ServerDatabaseRecord
create_database id now input s =
    let db : ServerDatabaseRecord = record {
      id = id;
      deployment_id = input.deployment_id;
      engine = input.engine;
      name = input.name;
      username = input.username;
      password = input.password;
      host = input.host;
      port = input.port;
      container_id = input.container_id;
      status = "running";
      created_at = now;
    } in
    (record s { databases = insert id db s.databases }, db)

unfoldable pub list_databases : String → Store → List ServerDatabaseRecord
list_databases deployment_id s =
    sort_by (λ a b. leb a.created_at b.created_at)
      (filter (λ d. str_eq d.deployment_id deployment_id) (values s.databases))

unfoldable pub get_database : String → Store → Option ServerDatabaseRecord
get_database id s = lookup id s.databases

unfoldable pub delete_database : String → Store → Store
delete_database id s = record s { databases = erase id s.databases }

unfoldable pub create_backup :
    String → ℕ → CreateServerBackupInput → Store → Store × ServerBackupRecord
create_backup id now input s =
    let backup : ServerBackupRecord = record {
      id = id;
      deployment_id = input.deployment_id;
      name = input.name;
      path = input.path;
      ref = input.ref;
      size_bytes = input.size_bytes;
      status = "ready";
      created_at = now;
      offsite = input.offsite;
    } in
    (record s { backups = insert id backup s.backups }, backup)

unfoldable pub list_backups : String → Store → List ServerBackupRecord
list_backups deployment_id s =
    sort_by (λ a b. leb b.created_at a.created_at)
      (filter (λ b. str_eq b.deployment_id deployment_id) (values s.backups))

unfoldable pub get_backup : String → Store → Option ServerBackupRecord
get_backup id s = lookup id s.backups

unfoldable pub delete_backup : String → Store → Store
delete_backup id s = record s { backups = erase id s.backups }

unfoldable pub create_schedule :
    String → ℕ → CreateServerScheduleInput → Store → Store × ServerScheduleRecord
create_schedule id now input s =
    let schedule : ServerScheduleRecord = record {
      id = id;
      deployment_id = input.deployment_id;
      name = input.name;
      cron = input.cron;
      action = input.action;
      enabled = or_else input.enabled true;
      last_run_at = none;
      created_at = now;
    } in
    (record s { schedules = insert id schedule s.schedules }, schedule)

unfoldable pub list_schedules : String → Store → List ServerScheduleRecord
list_schedules deployment_id s =
    sort_by (λ a b. leb a.created_at b.created_at)
      (filter (λ x. str_eq x.deployment_id deployment_id) (values s.schedules))

unfoldable pub list_all_schedules : Store → List ServerScheduleRecord
list_all_schedules s = values s.schedules

unfoldable pub get_schedule : String → Store → Option ServerScheduleRecord
get_schedule id s = lookup id s.schedules

unfoldable pub patch_schedule :
    UpdateServerScheduleInput → ServerScheduleRecord → ServerScheduleRecord
patch_schedule patch current = record current {
  name = or_else patch.name current.name;
  cron = or_else patch.cron current.cron;
  action = or_else patch.action current.action;
  enabled = or_else patch.enabled current.enabled;
  last_run_at = or_else patch.last_run_at current.last_run_at;
}

unfoldable pub update_schedule :
    String → UpdateServerScheduleInput → Store → Store × Option ServerScheduleRecord
update_schedule id patch s = elim (lookup id s.schedules) [
  | none ↦ (s, none)
  | some current ↦ (
    record s { schedules = insert id (patch_schedule patch current) s.schedules },
    some (patch_schedule patch current),
  )
]

unfoldable pub delete_schedule : String → Store → Store
delete_schedule id s = record s { schedules = erase id s.schedules }
