-- ===== src/Orchestrator/Retention/Kept.antt =====
-- What a retention policy leaves (services/orchestrator/src/retention.ts).
use nexus_infra.Prelude.{
  none, zero, ℕ, suc, ◌+◌, ◌-◌, ◌≤◌, ◌<◌, String, ◌≡◌, refl, Bool, Option, some, List, [], ◌∷◌,
  ◌||◌, length, arith, Bool-cases, inl, inr,
}
use nexus_infra.Orchestrator.Retention.{
  ServerBackupRecord, BackupRetention, is_set, past_count, is_expired, insert_newest, newest_first,
  expired_from, expired_backups,
}

-- The most of so many backups that a policy keeps; 0 is no limit.
abbrev pub most_kept : Option ℕ → ℕ → ℕ
most_kept none n = n
most_kept (some zero) n = n
most_kept (some (suc keep)) n = suc keep

module _ (after : String → String → Bool) where
  insert_newest-length :
      (b : ServerBackupRecord) (bs : List ServerBackupRecord)
      → length (insert_newest after b bs) ≡ suc (length bs)
  unfolding insert_newest
  insert_newest-length b [] = refl
  insert_newest-length b (c ∷ cs) = ground (arith, insert_newest-length b cs)

  newest_first-length : (bs : List ServerBackupRecord) → length (newest_first after bs) ≡ length bs
  unfolding newest_first
  newest_first-length [] = refl
  newest_first-length (b ∷ bs) =
      omega (arith, newest_first-length bs, insert_newest-length b (newest_first after bs))

  expired_from-length :
      (policy : BackupRetention) (now index : ℕ) (bs : List ServerBackupRecord)
      → length (expired_from after policy now index bs) ≤ length bs
  unfolding expired_from
  expired_from-length policy now index [] = omega arith
  expired_from-length policy now index (b ∷ bs) =
      ground (arith, expired_from-length policy now (suc index) bs)

  expired_from-count :
      (keep : ℕ) (days : Option ℕ) (now index : ℕ) (bs : List ServerBackupRecord)
      → length bs
        ≤ length (
            expired_from after
              (record { keep_last = some (suc keep); keep_days = days })
              now
              index
              bs)
          + (suc keep - index)
  unfolding expired_from is_expired past_count
  expired_from-count keep days now index [] = omega arith
  expired_from-count keep days now index (b ∷ bs) =
      ground (arith, expired_from-count keep days now (suc index) bs)

  expired_backups-leaves_at_most :
      (backups : List ServerBackupRecord) (keep : ℕ) (days : Option ℕ) (now : ℕ)
      → length backups
        ≤ length (
            expired_backups after backups
              (record { keep_last = some (suc keep); keep_days = days })
              now)
          + suc keep
  unfolding expired_backups is_set
  expired_backups-leaves_at_most backups keep days now = ground (
    arith,
    expired_from-count keep days now 0 (newest_first after backups),
    newest_first-length backups,
  )

  first-kept :
      (policy : BackupRetention) (now : ℕ) (bs : List ServerBackupRecord)
      → 0 < length bs
      → length (expired_from after policy now 0 bs) < length bs
  unfolding expired_from is_expired
  first-kept policy now [] h = h
  first-kept policy now (b ∷ bs) h = omega (arith, expired_from-length policy now 1 bs)

  expired_backups-leaves_one :
      (backups : List ServerBackupRecord) (policy : BackupRetention) (now : ℕ)
      → 0 < length backups
      → length (expired_backups after backups policy now) < length backups
  unfolding expired_backups
  expired_backups-leaves_one backups policy now h =
      elim (Bool-cases (is_set policy.keep_last || is_set policy.keep_days)) [
        | inl some_limit ↦ rw some_limit (
            omega (
              arith,
              newest_first-length backups,
              h,
              first-kept policy now (newest_first after backups)
                  (omega (arith, newest_first-length backups, h)),
            ))
        | inr no_limit ↦ rw no_limit h
      ]

  leaves_at_most :
      (keep days : Option ℕ) (now : ℕ) (backups : List ServerBackupRecord)
      → length backups
        ≤ length (expired_backups after backups (record { keep_last = keep; keep_days = days }) now)
          + most_kept keep (length backups)
  leaves_at_most none days now backups = omega arith
  leaves_at_most (some zero) days now backups = omega arith
  leaves_at_most (some (suc keep)) days now backups =
      expired_backups-leaves_at_most backups keep days now

  -- A server that has backups keeps one of them at least, whatever the policy and however old they
  -- are, and no more than the policy keeps, where it says how many.
  pub expired_backups-leaves :
      (backups : List ServerBackupRecord) (policy : BackupRetention) (now : ℕ)
      → 0 < length backups
      → (length (expired_backups after backups policy now) < length backups)
        × (length backups
            ≤ length (expired_backups after backups policy now)
              + most_kept policy.keep_last (length backups))
  expired_backups-leaves backups policy now h = (
    expired_backups-leaves_one backups policy now h,
    leaves_at_most policy.keep_last policy.keep_days now backups,
  )
