-- ===== src/Orchestrator/Store/Accounts.antt =====
-- Accounts, sessions, links, API tokens and recovery codes of the orchestrator's store
-- (services/orchestrator/src/repository.ts).
use nexus_infra.Prelude.{
  ℕ, String, Bool, true, false, not, ◌&&◌, ◌||◌, Option, none, some, List, [], ◌∷◌, if◌then◌else◌,
  leb, is_none, str_eq, length, filter, find, sort_by,
}
use nexus_infra.Prelude.Assoc.{Assoc, lookup, insert, erase, values, drop_where}
use nexus_infra.Orchestrator.Store.Rows.{
  UserRecord, CreateUserInput, SessionRecord, LinkRecord, ApiTokenRecord, CreateApiTokenInput,
  RecoveryCode, Store,
}

unfoldable pub create_user : ℕ → CreateUserInput → Store → Store × UserRecord
create_user now input s =
    let user : UserRecord = record {
      id = input.id;
      email = input.email;
      display_name = input.display_name;
      password_hash = input.password_hash;
      platform_role = input.platform_role;
      created_at = now;
      totp_secret = none;
      totp_enabled_at = none;
      email_verified_at = input.email_verified_at;
    } in
    (record s { users = insert user.id user s.users }, user)

unfoldable pub get_user : String → Store → Option UserRecord
get_user id s = lookup id s.users

unfoldable pub get_user_by_email : String → Store → Option UserRecord
get_user_by_email email s = find (λ u. str_eq u.email email) (values s.users)

unfoldable pub list_users : Store → List UserRecord
list_users s = values s.users

unfoldable pub count_users : Store → ℕ
count_users s = length s.users

-- `const user = this.users.get(id); if (!user) return null; ... this.users.set(id, updated)`
unfoldable pub update_user : String → (UserRecord → UserRecord) → Store → Store × Option UserRecord
update_user id change s = elim (lookup id s.users) [
  | none ↦ (s, none)
  | some user ↦ (record s { users = insert id (change user) s.users }, some (change user))
]

unfoldable pub set_user_password : String → String → Store → Store × Option UserRecord
set_user_password id password_hash s =
    update_user id (λ user. record user { password_hash = password_hash }) s

unfoldable pub set_user_totp : String → Option String → Option ℕ → Store → Store × Option UserRecord
set_user_totp id secret enabled_at s =
    update_user id (λ user. record user { totp_secret = secret; totp_enabled_at = enabled_at }) s

unfoldable pub set_user_email_verified : String → ℕ → Store → Store
set_user_email_verified id at s = elim (lookup id s.users) [
  | none ↦ s
  | some user ↦
      if is_none user.email_verified_at
      then record s { users = insert id (record user { email_verified_at = some at }) s.users }
      else s
]

unfoldable pub create_session :
    String → ℕ → String → Option String → Option String → Store → Store × SessionRecord
create_session id now user_id user_agent ip_address s =
    let session : SessionRecord = record {
      id = id;
      user_id = user_id;
      created_at = now;
      last_seen_at = now;
      user_agent = user_agent;
      ip_address = ip_address;
    } in
    (record s { sessions = insert id session s.sessions }, session)

unfoldable pub get_session : String → Store → Option SessionRecord
get_session id s = lookup id s.sessions

unfoldable pub list_sessions : String → Store → List SessionRecord
list_sessions user_id s =
    sort_by (λ a b. leb b.last_seen_at a.last_seen_at)
      (filter (λ x. str_eq x.user_id user_id) (values s.sessions))

unfoldable pub delete_session : String → Store → Store
delete_session id s = record s { sessions = erase id s.sessions }

unfoldable pub drop_sessions : String → Option String → Assoc SessionRecord → Assoc SessionRecord
drop_sessions user_id except_id [] = []
drop_sessions user_id except_id ((id, session) ∷ sessions) =
    let rest = drop_sessions user_id except_id sessions in
    let kept = elim except_id as (λ _. Bool) [ none ↦ false | some except ↦ str_eq id except ] in
    if str_eq session.user_id user_id && not kept then rest else (id, session) ∷ rest

unfoldable pub delete_sessions_for_user : String → Option String → Store → Store
delete_sessions_for_user user_id except_id s = record s {
  sessions = drop_sessions user_id except_id s.sessions;
}

unfoldable pub touch_session : String → ℕ → Store → Store
touch_session id at s = elim (lookup id s.sessions) [
  | none ↦ s
  | some session ↦ record s {
    sessions = insert id (record session { last_seen_at = at }) s.sessions;
  }
]

-- A link of the account that is not used yet.
unfoldable pub is_outstanding : String → LinkRecord → Bool
is_outstanding user_id link = str_eq link.user_id user_id && is_none link.used_at

-- `createPasswordReset` and `createEmailVerification`, on their Map.
unfoldable pub issue_link : String → String → ℕ → Assoc LinkRecord → Assoc LinkRecord
issue_link user_id token_hash expires_at links =
    insert token_hash (record { user_id = user_id; expires_at = expires_at; used_at = none })
      (drop_where (is_outstanding user_id) links)

-- `consumePasswordReset` and `consumeEmailVerification`, on their Map.
unfoldable pub consume_link : String → ℕ → Assoc LinkRecord → Assoc LinkRecord × Option String
consume_link token_hash now links = elim (lookup token_hash links) [
  | none ↦ (links, none)
  | some link ↦
      if not (is_none link.used_at) || leb link.expires_at now
      then (links, none)
      else (insert token_hash (record link { used_at = some now }) links, some link.user_id)
]

unfoldable pub create_password_reset : String → String → ℕ → Store → Store
create_password_reset user_id token_hash expires_at s = record s {
  password_resets = issue_link user_id token_hash expires_at s.password_resets;
}

unfoldable pub consume_password_reset : String → ℕ → Store → Store × Option String
consume_password_reset token_hash now s =
    let (links, user_id) = consume_link token_hash now s.password_resets in
    (record s { password_resets = links }, user_id)

unfoldable pub create_email_verification : String → String → ℕ → Store → Store
create_email_verification user_id token_hash expires_at s = record s {
  email_verifications = issue_link user_id token_hash expires_at s.email_verifications;
}

unfoldable pub consume_email_verification : String → ℕ → Store → Store × Option String
consume_email_verification token_hash now s =
    let (links, user_id) = consume_link token_hash now s.email_verifications in
    (record s { email_verifications = links }, user_id)

unfoldable pub create_api_token : String → ℕ → CreateApiTokenInput → Store → Store × ApiTokenRecord
create_api_token id now input s =
    let token : ApiTokenRecord = record {
      id = id;
      user_id = input.user_id;
      name = input.name;
      token_hash = input.token_hash;
      scopes = input.scopes;
      created_at = now;
      last_used_at = none;
      expires_at = input.expires_at;
    } in
    (record s { api_tokens = insert id token s.api_tokens }, token)

unfoldable pub get_api_token_by_hash : String → Store → Option ApiTokenRecord
get_api_token_by_hash token_hash s =
    find (λ t. str_eq t.token_hash token_hash) (values s.api_tokens)

unfoldable pub list_api_tokens : String → Store → List ApiTokenRecord
list_api_tokens user_id s =
    sort_by (λ a b. leb a.created_at b.created_at)
      (filter (λ t. str_eq t.user_id user_id) (values s.api_tokens))

unfoldable pub get_api_token : String → Store → Option ApiTokenRecord
get_api_token id s = lookup id s.api_tokens

unfoldable pub delete_api_token : String → Store → Store
delete_api_token id s = record s { api_tokens = erase id s.api_tokens }

unfoldable pub touch_api_token : String → ℕ → Store → Store
touch_api_token id at s = elim (lookup id s.api_tokens) [
  | none ↦ s
  | some token ↦ record s {
    api_tokens = insert id (record token { last_used_at = some at }) s.api_tokens;
  }
]

-- The new codes, each under a random id of its own.
unfoldable pub add_codes : String → List (String × String) → Assoc RecoveryCode → Assoc RecoveryCode
add_codes user_id [] codes = codes
add_codes user_id ((id, code_hash) ∷ rest) codes =
    add_codes user_id rest (insert id (record { user_id = user_id; code_hash = code_hash }) codes)

unfoldable pub replace_recovery_codes : String → List (String × String) → Store → Store
replace_recovery_codes user_id code_hashes s = record s {
  recovery_codes =
      add_codes user_id code_hashes (drop_where (λ c. str_eq c.user_id user_id) s.recovery_codes);
}

unfoldable pub is_code : String → String → RecoveryCode → Bool
is_code user_id code_hash c = str_eq c.user_id user_id && str_eq c.code_hash code_hash

-- The loop of `consumeRecoveryCode`: the first code that matches is deleted.
unfoldable pub take_code : (RecoveryCode → Bool) → Assoc RecoveryCode → Assoc RecoveryCode × Bool
take_code p [] = ([], false)
take_code p ((key, code) ∷ codes) =
    let (rest, taken) = take_code p codes in
    if p code then (codes, true) else ((key, code) ∷ rest, taken)

unfoldable pub consume_recovery_code : String → String → Store → Store × Bool
consume_recovery_code user_id code_hash s =
    let (codes, taken) = take_code (is_code user_id code_hash) s.recovery_codes in
    (record s { recovery_codes = codes }, taken)

unfoldable pub count_recovery_codes : String → Store → ℕ
count_recovery_codes user_id s =
    length (filter (λ c. str_eq c.user_id user_id) (values s.recovery_codes))
