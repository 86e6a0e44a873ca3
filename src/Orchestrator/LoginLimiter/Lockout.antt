-- ===== src/Orchestrator/LoginLimiter/Lockout.antt =====
-- When a key is locked out, among logins of any other keys (services/orchestrator/src/
-- loginLimiter.ts).
use nexus_infra.Prelude.{
  ℕ, suc, ◌+◌, ◌-◌, ◌≤◌, ◌<◌, String, ◌≡◌, refl, ◌∙◌, true, false, some, List, [], ◌∷◌, arith,
  str_eq, eq_iff, All, Bool-cases, inl, inr, if◌then◌else◌, ltb, max,
}
use nexus_infra.Prelude.Assoc.{Assoc, lookup}
use nexus_infra.Orchestrator.LoginLimiter.{
  LoginLimiterOptions, Entry, entry_expired, entry_for, retry_after, check, count_failure, fail,
  succeed,
}
use nexus_infra.Orchestrator.LoginLimiter.Entries.{
  hits, succeed-miss, entry_for-live, fail-Counted, fail-miss,
}

-- An attempt that failed, or one that succeeded.
pub data LoginEvent : Type 0 where
  failed : (at : ℕ) (keys : List String) → LoginEvent
  succeeded : (keys : List String) → LoginEvent

module _ (options : LoginLimiterOptions) where
  unfoldable pub after_logins : List LoginEvent → Assoc Entry → Assoc Entry
  after_logins [] entries = entries
  after_logins (failed at keys ∷ events) entries =
      after_logins events (fail options at keys entries)
  after_logins (succeeded keys ∷ events) entries = after_logins events (succeed keys entries)

  -- How many of the attempts failed with the key among theirs.
  unfoldable pub failures_of : String → List LoginEvent → ℕ
  failures_of key [] = 0
  failures_of key (failed at keys ∷ events) =
      let later = failures_of key events in if hits key keys then suc later else later
  failures_of key (succeeded keys ∷ events) = failures_of key events

  -- A failure is before the time, and a success is of other keys.
  abbrev pub IsBefore : String → ℕ → LoginEvent → Type 0
  IsBefore key end (failed at keys) = at < end
  IsBefore key end (succeeded keys) = hits key keys ≡ false

  after_logins-count :
      (key : String) (end : ℕ) (events : List LoginEvent) (e : Entry) (entries : Assoc Entry)
      → lookup key entries ≡ some e
      → end ≡ e.since + options.window_ms
      → All (IsBefore key end) events
      → (later : Entry) × (lookup key (after_logins events entries) ≡ some later)
        × (e.failures + failures_of key events ≤ later.failures)
        × (later.since ≡ e.since)
  unfolding after_logins failures_of count_failure entry_expired
  after_logins-count key end [] e entries h window inside = (e, h, omega arith, refl)
  after_logins-count key end (succeeded keys ∷ events) e entries h window (miss, inside) =
      after_logins-count key end events e (succeed keys entries)
        (succeed-miss key keys entries miss ∙ h) window inside
  after_logins-count key end (failed at keys ∷ events) e entries h window (early, inside) =
      let live : at < e.since + options.window_ms = omega (arith, early, window) in
      elim (Bool-cases (hits key keys)) [
        | inl hit ↦
            let c = fail-Counted options key at e keys entries h live hit in
            let (later, found, count, since) =
              after_logins-count key end events (count_failure options at c.before)
                (fail options at keys entries) c.found (omega (arith, window, c.since)) inside in
            (later, found, ground (arith, hit, count, c.enough), since ∙ c.since)
        | inr miss ↦
            let (later, found, count, since) =
              after_logins-count key end events e (fail options at keys entries)
                (fail-miss options key at e keys entries h (ground (arith, live)) miss) window
                inside in
            (later, found, ground (arith, miss, count), since)
      ]

  -- The attempt is not of the key, and a failure is before the time.
  abbrev pub IsElsewhere : String → ℕ → LoginEvent → Type 0
  IsElsewhere key end (failed at keys) = (at < end) × (hits key keys ≡ false)
  IsElsewhere key end (succeeded keys) = hits key keys ≡ false

  after_logins-elsewhere :
      (key : String) (e : Entry) (events : List LoginEvent) (entries : Assoc Entry)
      → lookup key entries ≡ some e
      → All (IsElsewhere key e.locked_until) events
      → lookup key (after_logins events entries) ≡ some e
  unfolding after_logins entry_expired
  after_logins-elsewhere key e [] entries h out = h
  after_logins-elsewhere key e (succeeded keys ∷ events) entries h (miss, out) =
      after_logins-elsewhere key e events (succeed keys entries)
        (succeed-miss key keys entries miss ∙ h) out
  after_logins-elsewhere key e (failed at keys ∷ events) entries h ((early, miss), out) =
      after_logins-elsewhere key e events (fail options at keys entries)
        (fail-miss options key at e keys entries h (ground (arith, early)) miss) out

  -- The longest wait after one more key.
  abbrev longer : ℕ → ℕ → Entry → ℕ
  longer at wait e = if ltb at e.locked_until then max wait (e.locked_until - at) else wait

  retry_after-le :
      (at : ℕ) (keys : List String) (entries : Assoc Entry) (wait : ℕ)
      → wait ≤ retry_after options at wait keys entries
  unfolding retry_after
  retry_after-le at [] entries wait = omega arith
  retry_after-le at (k ∷ keys) entries wait =
      ground
        (arith, retry_after-le at keys entries (longer at wait (entry_for options k at entries)))

  retry_after-locked :
      (key : String) (at : ℕ) (e : Entry) (keys : List String) (entries : Assoc Entry) (wait : ℕ)
      → lookup key entries ≡ some e
      → at < e.locked_until
      → hits key keys ≡ true
      → e.locked_until - at ≤ retry_after options at wait keys entries
  unfolding retry_after entry_expired
  retry_after-locked key at e [] entries wait h locked hit = absurd (ground (arith, hit))
  retry_after-locked key at e (k ∷ keys) entries wait h locked hit =
      elim (Bool-cases (str_eq k key)) [
        | inr other ↦
            retry_after-locked key at e keys entries
              (longer at wait (entry_for options k at entries)) h locked
              (ground (arith, hit, other))
        | inl mine ↦
            let own : k ≡ key = ground (arith, mine, eq_iff k key) in
            let running : entry_for options k at entries ≡ e =
              rw own (entry_for-live options key at e entries h (ground (arith, locked))) in
            ground (
              arith,
              running,
              locked,
              retry_after-le at keys entries (max wait (e.locked_until - at)),
            )
      ]

  -- An account or an address with an entry of `e.failures` failures, against which further attempts
  -- fail inside the entry's window, each with whatever other keys it has, while other accounts and
  -- addresses fail and succeed in between: once the failures reach the limit, every attempt with the
  -- key among its own is refused until the lockout after the last of them ends, and told to wait at
  -- least as long. What others fail and succeed in the meantime does not lift the lockout.
  pub failures-lock_out :
      (key : String) (e : Entry) (entries : Assoc Entry) (events : List LoginEvent) (last : ℕ)
      (last_keys : List String) (meantime : List LoginEvent) (now : ℕ) (keys : List String)
      → lookup key entries ≡ some e
      → All (IsBefore key (e.since + options.window_ms)) events
      → last < e.since + options.window_ms
      → hits key last_keys ≡ true
      → options.max_attempts ≤ suc (e.failures + failures_of key events)
      → All (IsElsewhere key (last + options.lockout_ms)) meantime
      → now < last + options.lockout_ms
      → hits key keys ≡ true
      → ((check options now keys (
            after_logins meantime
              (fail options last last_keys (after_logins events entries)))).allowed
          ≡ false)
        × (last + options.lockout_ms
            ≤ now
              + (check options now keys (
                  after_logins meantime
                    (fail options last last_keys (after_logins events entries)))).retry_after_ms)
  unfolding check count_failure
  failures-lock_out key e entries events last last_keys meantime now keys h inside last_inside hit
        enough out early asks =
      let (later, found, count, since) =
        after_logins-count key (e.since + options.window_ms) events e entries h refl inside in
      let c =
        fail-Counted options key last later last_keys (after_logins events entries) found
          (omega (arith, since, last_inside)) hit in
      let locked : (count_failure options last c.before).locked_until ≡ last + options.lockout_ms =
        ground (arith, count, c.enough, enough) in
      let stays =
        after_logins-elsewhere key (count_failure options last c.before) meantime
          (fail options last last_keys (after_logins events entries)) c.found (rw locked out) in
      let wait =
        retry_after-locked key now (count_failure options last c.before) keys
          (after_logins meantime (fail options last last_keys (after_logins events entries))) 0
          stays (omega (arith, locked, early)) asks in
      (ground (arith, wait, locked, early), omega (arith, wait, locked, early))
