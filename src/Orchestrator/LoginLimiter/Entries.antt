-- ===== src/Orchestrator/LoginLimiter/Entries.antt =====
-- What a login does to the entry of one key (services/orchestrator/src/loginLimiter.ts).
use nexus_infra.Prelude.{
  ℕ, ◌+◌, ◌≤◌, ◌<◌, String, ◌≡◌, refl, ◌∙◌, Bool, true, false, some, List, [], ◌∷◌, arith, str_eq,
  eq_iff, Bool-cases, inl, inr, any,
}
use nexus_infra.Prelude.Assoc.{Assoc, lookup, insert, erase, lookup-insert, lookup-erase}
use nexus_infra.Orchestrator.LoginLimiter.{
  LoginLimiterOptions, Entry, entry_expired, sweep, entry_for, count_failure, fail_keys, fail,
  succeed,
}

-- The key is one of those of an attempt.
abbrev pub hits : String → List String → Bool
hits key keys = any (λ k. str_eq k key) keys

pub succeed-miss :
    (key : String) (keys : List String) (entries : Assoc Entry)
    → hits key keys ≡ false
    → lookup key (succeed keys entries) ≡ lookup key entries
unfolding succeed
succeed-miss key [] entries miss = refl
succeed-miss key (k ∷ keys) entries miss =
    succeed-miss key keys (erase k entries) (ground (arith, miss))
    ∙ ground (arith, miss, lookup-erase k key entries)

module _ (options : LoginLimiterOptions) where
  lookup-sweep :
      (key : String) (at : ℕ) (e : Entry) (entries : Assoc Entry)
      → lookup key entries ≡ some e
      → entry_expired options at e ≡ false
      → lookup key (sweep options at entries) ≡ some e
  unfolding lookup sweep
  lookup-sweep key at e [] h live = ground (arith, h)
  lookup-sweep key at e ((k, x) ∷ entries) h live = elim (Bool-cases (str_eq k key)) [
    | inl s ↦ ground (arith, h, s, live)
    | inr s ↦ ground (arith, h, s, live, lookup-sweep key at e entries)
  ]

  pub entry_for-live :
      (key : String) (at : ℕ) (e : Entry) (entries : Assoc Entry)
      → lookup key entries ≡ some e
      → entry_expired options at e ≡ false
      → entry_for options key at entries ≡ e
  unfolding entry_for
  entry_for-live key at e entries h live = ground (arith, h, live)

  fail_keys-miss :
      (key : String) (at : ℕ) (keys : List String) (entries : Assoc Entry)
      → hits key keys ≡ false
      → lookup key (fail_keys options at keys entries) ≡ lookup key entries
  unfolding fail_keys
  fail_keys-miss key at [] entries miss = refl
  fail_keys-miss key at (k ∷ keys) entries miss =
      let next = count_failure options at (entry_for options k at entries) in
      fail_keys-miss key at keys (insert k next entries) (ground (arith, miss))
      ∙ ground (arith, miss, lookup-insert k key next entries)

  -- The last count of a failure in the entry of a key.
  pub record Counted (key : String) (at : ℕ) (e : Entry) (entries : Assoc Entry) : Type 0 where
    pub before : Entry
    pub found : lookup key entries ≡ some (count_failure options at before)
    pub since : before.since ≡ e.since
    pub enough : e.failures ≤ before.failures

  Counted-on :
      (key : String) (at : ℕ) (e : Entry) (entries : Assoc Entry)
      → Counted key at (count_failure options at e) entries
      → Counted key at e entries
  unfolding count_failure
  Counted-on key at e entries c = record {
    before = c.before;
    found = c.found;
    since = c.since;
    enough = omega (arith, c.enough);
  }

  fail_keys-Counted :
      (key : String) (at : ℕ) (e : Entry) (keys : List String) (entries : Assoc Entry)
      → lookup key entries ≡ some e
      → at < e.since + options.window_ms
      → hits key keys ≡ true
      → Counted key at e (fail_keys options at keys entries)
  unfolding fail_keys entry_expired
  fail_keys-Counted key at e [] entries h live hit = absurd (ground (arith, hit))
  fail_keys-Counted key at e (k ∷ keys) entries h live hit =
      let next = count_failure options at (entry_for options k at entries) in
      elim (Bool-cases (str_eq k key)) [
        | inr other ↦
            fail_keys-Counted key at e keys (insert k next entries)
              (ground (arith, h, other, lookup-insert k key next entries)) live
              (ground (arith, hit, other))
        | inl mine ↦
            let own : k ≡ key = ground (arith, mine, eq_iff k key) in
            let running : entry_for options k at entries ≡ e =
              rw own (entry_for-live key at e entries h (ground (arith, live))) in
            let there : lookup key (insert k next entries) ≡ some (count_failure options at e) =
              ground (arith, mine, running, lookup-insert k key next entries) in
            elim (Bool-cases (hits key keys)) [
              | inl again ↦ Counted-on key at e _ (
                  fail_keys-Counted key at (count_failure options at e) keys (insert k next entries)
                    there (unfold count_failure in live) again)
              | inr last ↦ record {
                before = e;
                found = fail_keys-miss key at keys (insert k next entries) last ∙ there;
                since = refl;
                enough = omega arith;
              }
            ]
      ]

  pub fail-Counted :
      (key : String) (at : ℕ) (e : Entry) (keys : List String) (entries : Assoc Entry)
      → lookup key entries ≡ some e
      → at < e.since + options.window_ms
      → hits key keys ≡ true
      → Counted key at e (fail options at keys entries)
  unfolding fail entry_expired
  fail-Counted key at e keys entries h live hit =
      fail_keys-Counted key at e keys (sweep options at entries)
        (lookup-sweep key at e entries h (ground (arith, live))) live hit

  pub fail-miss :
      (key : String) (at : ℕ) (e : Entry) (keys : List String) (entries : Assoc Entry)
      → lookup key entries ≡ some e
      → entry_expired options at e ≡ false
      → hits key keys ≡ false
      → lookup key (fail options at keys entries) ≡ some e
  unfolding fail
  fail-miss key at e keys entries h live miss =
      fail_keys-miss key at keys (sweep options at entries) miss
      ∙ lookup-sweep key at e entries h live
