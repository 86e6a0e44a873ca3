-- ===== src/Orchestrator/LoginLimiter.antt =====
-- The limit on failed logins (services/orchestrator/src/loginLimiter.ts). The clock is an argument
-- of each operation, in milliseconds.
pub mod Entries
pub mod Lockout
use nexus_infra.Prelude.{
  ℕ, zero, suc, ◌+◌, ◌-◌, String, Bool, true, false, Option, none, some, List, [], ◌∷◌, ◌&&◌,
  if◌then◌else◌, ltb, leb, ◌==◌, max, concat, length, str_eq, or_else,
}
use nexus_infra.Prelude.Assoc.{Assoc, lookup, insert, erase}
use nexus_infra.Prelude.Text.{trim}

pub record LoginLimiterOptions : Type 0 where
  pub max_attempts : ℕ
  pub window_ms : ℕ
  pub lockout_ms : ℕ

pub record LimitVerdict : Type 0 where
  pub allowed : Bool
  pub retry_after_ms : ℕ

pub record Entry : Type 0 where
  pub failures : ℕ
  pub since : ℕ
  pub locked_until : ℕ

abbrev pub default_options : LoginLimiterOptions
default_options = record { max_attempts = 10; window_ms = 900000; lockout_ms = 900000 }

unfoldable pub fresh_entry : ℕ → Entry
fresh_entry at = record { failures = 0; since = at; locked_until = 0 }

module _ (options : LoginLimiterOptions) where
  -- Its window has run out and it is not locked out.
  unfoldable pub entry_expired : ℕ → Entry → Bool
  entry_expired at entry = leb (entry.since + options.window_ms) at && leb entry.locked_until at

  unfoldable pub sweep : ℕ → Assoc Entry → Assoc Entry
  sweep at [] = []
  sweep at ((key, entry) ∷ entries) =
      let rest = sweep at entries in if entry_expired at entry then rest else (key, entry) ∷ rest

  unfoldable pub entry_for : String → ℕ → Assoc Entry → Entry
  entry_for key at entries = elim (lookup key entries) [
    | none ↦ fresh_entry at
    | some existing ↦ if entry_expired at existing then fresh_entry at else existing
  ]

  -- The loop of `check`, from the longest wait so far.
  unfoldable pub retry_after : ℕ → ℕ → List String → Assoc Entry → ℕ
  retry_after at wait [] entries = wait
  retry_after at wait (key ∷ keys) entries =
      let entry = entry_for key at entries in
      retry_after at
        (if ltb at entry.locked_until then max wait (entry.locked_until - at) else wait) keys
        entries

  unfoldable pub check : ℕ → List String → Assoc Entry → LimitVerdict
  check at keys entries =
      let wait = retry_after at 0 keys entries in
      record { allowed = wait == 0; retry_after_ms = wait }

  -- One more failure in an entry.
  unfoldable pub count_failure : ℕ → Entry → Entry
  count_failure at entry = record {
    failures = suc entry.failures;
    since = entry.since;
    locked_until =
        if leb options.max_attempts (suc entry.failures)
        then at + options.lockout_ms
        else entry.locked_until;
  }

  unfoldable pub fail_keys : ℕ → List String → Assoc Entry → Assoc Entry
  fail_keys at [] entries = entries
  fail_keys at (key ∷ keys) entries =
      fail_keys at keys (insert key (count_failure at (entry_for key at entries)) entries)

  unfoldable pub fail : ℕ → List String → Assoc Entry → Assoc Entry
  fail at keys entries = fail_keys at keys (sweep at entries)

unfoldable pub succeed : List String → Assoc Entry → Assoc Entry
succeed [] entries = entries
succeed (key ∷ keys) entries = succeed keys (erase key entries)

unfoldable pub size : Assoc Entry → ℕ
size entries = length entries

-- `fold` is `String.prototype.toLowerCase`.
unfoldable pub login_keys : (String → String) → Option String → Option String → List String
login_keys fold ip identifier =
    let name = trim (or_else identifier "") in
    let by_name = if str_eq name "" then [] else concat ("id:" ∷ fold name ∷ []) ∷ [] in
    let address = or_else ip "" in
    if str_eq address "" then by_name else concat ("ip:" ∷ address ∷ []) ∷ by_name
