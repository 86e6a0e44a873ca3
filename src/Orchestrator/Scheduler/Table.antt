-- ===== src/Orchestrator/Scheduler/Table.antt =====
-- The table of schedules while they are stamped (services/orchestrator/src/scheduler.ts and
-- repository.ts).
use nexus_infra.Prelude.{
  ℕ, String, ◌≡◌, refl, false, none, some, List, [], ◌∷◌, any, str_eq, eq_iff, arith, inl, inr,
  Bool-cases, Option-cases,
}
use nexus_infra.Prelude.Assoc.{Assoc, lookup, insert, lookup-insert}
use nexus_infra.Prelude.Rows.{IsRow}
use nexus_infra.Orchestrator.Store.Rows.{ServerScheduleRecord, Store}
use nexus_infra.Orchestrator.Store.Extras.{update_schedule, patch_schedule}
use nexus_infra.Orchestrator.Scheduler.{stamp}

-- No key stands twice, and each schedule stands under its own id.
abbrev pub IsTable : Assoc ServerScheduleRecord → Type 0
IsTable [] = Unit
IsTable ((key, x) ∷ m) = (x.id ≡ key) × (lookup key m ≡ none) × IsTable m

pub lookup-row :
    (x : ServerScheduleRecord) (m : Assoc ServerScheduleRecord)
    → IsTable m
    → IsRow x m
    → lookup x.id m ≡ some x
unfolding lookup
lookup-row x [] t row = absurd row
lookup-row x ((key, y) ∷ m) (own, alone, t) (inl e) = ground (arith, own, e, eq_iff key x.id)
lookup-row x ((key, y) ∷ m) (own, alone, t) (inr row) =
    ground (arith, alone, lookup-row x m t row, eq_iff key x.id)

lookup-id :
    (id : String) (x : ServerScheduleRecord) (m : Assoc ServerScheduleRecord)
    → IsTable m
    → lookup id m ≡ some x
    → x.id ≡ id
unfolding lookup
lookup-id id x [] t e = absurd (ground (arith, e))
lookup-id id x ((key, y) ∷ m) (own, alone, t) e =
    ground (arith, own, e, eq_iff key id, lookup-id id x m t)

insert-IsTable :
    (id : String) (x : ServerScheduleRecord) (m : Assoc ServerScheduleRecord)
    → x.id ≡ id
    → IsTable m
    → IsTable (insert id x m)
unfolding insert lookup
insert-IsTable id x [] mine t = (mine, refl, tt)
insert-IsTable id x ((key, y) ∷ m) mine (own, alone, t) = elim (Bool-cases (str_eq key id)) [
  | inl same ↦ rw (same, insert) (mine, ground (arith, alone, same, eq_iff key id), t)
  | inr other ↦
      rw (other, insert)
        (
          own,
          ground (arith, alone, other, lookup-insert id key x m, eq_iff key id, eq_iff id key),
          insert-IsTable id x m mine t,
        )
]

abbrev stamped : ℕ → ServerScheduleRecord → ServerScheduleRecord
stamped now x = record x { last_run_at = some now }

abbrev pub ran : ℕ → String → Store → Store
ran now id s = (update_schedule id (stamp now) s).0

update_schedule-some :
    (now : ℕ) (id : String) (x : ServerScheduleRecord) (s : Store)
    → lookup id s.schedules ≡ some x
    → (ran now id s).schedules ≡ insert id (stamped now x) s.schedules
unfolding update_schedule patch_schedule
update_schedule-some now id x s there = ground (arith, there)

update_schedule-none :
    (now : ℕ) (id : String) (s : Store) → lookup id s.schedules ≡ none → ran now id s ≡ s
unfolding update_schedule
update_schedule-none now id s gone = ground (arith, gone)

pub update_schedule-IsTable :
    (now : ℕ) (id : String) (s : Store) → IsTable s.schedules → IsTable (ran now id s).schedules
update_schedule-IsTable now id s t = elim (Option-cases (lookup id s.schedules)) [
  | inl gone ↦ rw (update_schedule-none now id s gone) t
  | inr (x, there) ↦
      rw (update_schedule-some now id x s there)
        (insert-IsTable id (stamped now x) s.schedules (lookup-id id x s.schedules t there) t)
]

-- What is found after one action was either stamped, or was there before under another id.
pub data Found (now : ℕ) (ids : List ServerScheduleRecord) (s : Store) (y : ServerScheduleRecord)
    : Type 0 where
  stamped_now : y.last_run_at ≡ some now → Found now ids s y
  as_before :
      lookup y.id s.schedules ≡ some y → any (λ x. str_eq x.id y.id) ids ≡ false → Found now ids s y

pub update_schedule-Found :
    (now : ℕ) (x y : ServerScheduleRecord) (s : Store)
    → lookup y.id (ran now x.id s).schedules ≡ some y
    → Found now (x ∷ []) s y
update_schedule-Found now x y s e = elim (Option-cases (lookup x.id s.schedules)) [
  | inl gone ↦
      let same = update_schedule-none now x.id s gone in
      let before : lookup y.id s.schedules ≡ some y = rw same at e in
      as_before before (ground (arith, gone, before, eq_iff x.id y.id))
  | inr (c, there) ↦
      let same = update_schedule-some now x.id c s there in
      let after : lookup y.id (insert x.id (stamped now c) s.schedules) ≡ some y = rw same at e in
      elim (Bool-cases (str_eq x.id y.id)) [
        | inl this ↦
            stamped_now
              (ground (arith, after, this, lookup-insert x.id y.id (stamped now c) s.schedules))
        | inr other ↦
            as_before
              (ground (arith, after, other, lookup-insert x.id y.id (stamped now c) s.schedules))
              (ground (arith, other))
      ]
]
