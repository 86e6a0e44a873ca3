-- ===== src/Orchestrator/Retention.antt =====
-- Which backups a server lets go of (services/orchestrator/src/retention.ts). Times are
-- milliseconds, and a setting that is absent or 0 is none.
pub mod Kept
use nexus_infra.Prelude.{
  ℕ, zero, suc, ◌+◌, ◌*◌, String, Bool, true, false, Option, none, some, List, [], ◌∷◌, ◌||◌, ◌&&◌,
  ltb, leb, ◌==◌, min, if◌then◌else◌, or_else, not,
}

pub record ServerBackupRecord : Type 0 where
  pub id : String
  pub created_at : ℕ

pub record BackupRetention : Type 0 where
  pub keep_last : Option ℕ
  pub keep_days : Option ℕ

abbrev pub day_ms : ℕ
day_ms = 86400000

-- `if (n)`
unfoldable pub is_set : Option ℕ → Bool
is_set none = false
is_set (some n) = not (n == 0)

unfoldable pub past_count : Option ℕ → ℕ → Bool
past_count none index = false
past_count (some keep_last) index = not (keep_last == 0) && leb keep_last index

-- `b < now - days`, without a negative cutoff.
unfoldable pub past_age : Option ℕ → ℕ → ServerBackupRecord → Bool
past_age none now b = false
past_age (some keep_days) now b =
    not (keep_days == 0) && ltb (b.created_at + keep_days * day_ms) now

unfoldable pub is_expired : BackupRetention → ℕ → ℕ → ServerBackupRecord → Bool
is_expired policy now index b =
    not (index == 0) && (past_count policy.keep_last index || past_age policy.keep_days now b)

-- `after a b` is `a.localeCompare(b) > 0`.
module _ (after : String → String → Bool) where
  unfoldable pub is_newer : ServerBackupRecord → ServerBackupRecord → Bool
  is_newer a b = ltb b.created_at a.created_at || (a.created_at == b.created_at && after a.id b.id)

  unfoldable pub insert_newest :
      ServerBackupRecord → List ServerBackupRecord → List ServerBackupRecord
  insert_newest b [] = b ∷ []
  insert_newest b (c ∷ cs) =
      let rest = insert_newest b cs in if is_newer c b then c ∷ rest else b ∷ c ∷ cs

  unfoldable pub newest_first : List ServerBackupRecord → List ServerBackupRecord
  newest_first [] = []
  newest_first (b ∷ bs) = insert_newest b (newest_first bs)

  -- The filter of `expiredBackups`, from an index on.
  unfoldable pub expired_from :
      BackupRetention → ℕ → ℕ → List ServerBackupRecord → List ServerBackupRecord
  expired_from policy now index [] = []
  expired_from policy now index (b ∷ bs) =
      let rest = expired_from policy now (suc index) bs in
      if is_expired policy now index b then b ∷ rest else rest

  unfoldable pub expired_backups :
      List ServerBackupRecord → BackupRetention → ℕ → List ServerBackupRecord
  expired_backups backups policy now =
      if is_set policy.keep_last || is_set policy.keep_days
      then expired_from policy now 0 (newest_first backups)
      else []

unfoldable pub with_plan_ceiling : BackupRetention → Option ℕ → BackupRetention
with_plan_ceiling policy none = policy
with_plan_ceiling policy (some ceiling) = if ltb ceiling 1 then policy else record {
  keep_last =
      some (if is_set policy.keep_last then min (or_else policy.keep_last 0) ceiling else ceiling);
  keep_days = policy.keep_days;
}
