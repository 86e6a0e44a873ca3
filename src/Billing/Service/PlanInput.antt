-- ===== src/Billing/Service/PlanInput.antt =====
-- Plans as they are submitted: services/billing-bridge/src/plans.ts.
use Prim.Native.Char.{code}
use Prim.Native.String
use Prim.Native.String.{String}
use nexus_infra.Prelude.{
  ℕ, Bool, true, false, not, ◌&&◌, ◌||◌, Option, none, some, ltb, leb, ◌==◌, str_eq, if◌then◌else◌,
  or_else,
}
use nexus_infra.Prelude.Assoc.{Assoc, lookup}
use nexus_infra.Prelude.Text.{trim, utf16_length, slice_to}
use nexus_infra.Billing.Number.{Numbers, literal}
use nexus_infra.Billing.Types.{BillingPlan}
use nexus_infra.Billing.Pricing.{default_plan}
use nexus_infra.Billing.Service.{BillingError, no_such_plan, default_plan_kept, plan_not_offered}

abbrev pub max_plan_name : ℕ
max_plan_name = 60

-- A field of a submitted body, whose type is not known; `other` is an object or an array.
pub data Value (Num : Type 0) : Type 0 where
  undefined null : Value Num
  number : Num → Value Num
  text : String → Value Num
  flag : Bool → Value Num
  other : Value Num

-- `PlanInput`: a plan without its id and currency.
pub record PlanInput (Num : Type 0) : Type 0 where
  pub name : String
  pub price_per_hour : Num
  pub free_hours_per_month : Num
  pub max_servers : Num
  pub max_databases : Num
  pub max_ram_mb : Option Num
  pub max_backups_per_server : Option Num
  pub active : Bool

pub data Parsed (A : Type 0) : Type 0 where
  parsed : A → Parsed A
  problem : String → Parsed A

infixl 5 ◌and_then◌
abbrev ◌and_then◌ : {A B : Type 0} → Parsed A → (A → Parsed B) → Parsed B
p and_then next = elim p [ problem why ↦ problem why | parsed value ↦ next value ]

-- `key in b ? b[key] : base?.[key]`
abbrev pick : {Num : Type 0} → String → Assoc (Value Num) → Value Num → Value Num
pick key body base = or_else (lookup key body) base

-- `value ?? fallback`
abbrev or_default : {Num : Type 0} → Value Num → Value Num → Value Num
or_default undefined fallback = fallback
or_default null fallback = fallback
or_default value fallback = value

optional : {Num : Type 0} → Option Num → Value Num
optional none = null
optional (some n) = number n

module _ (numbers : Numbers) where
  open numbers use {Num, less, is_finite, is_integer}

  -- The fields of the plan that an edit starts from, or none.
  abbrev base_field : (BillingPlan Num → Value Num) → Option (BillingPlan Num) → Value Num
  base_field field none = undefined
  base_field field (some plan) = field plan

  parse_name : Value Num → Parsed String
  parse_name (text name) =
      if str_eq (trim name) ""
      then problem "a plan needs a name"
      else if ltb max_plan_name (utf16_length (trim name))
      then problem "the name is longer than 60 characters"
      else parsed (trim name)
  parse_name value = problem "a plan needs a name"

  -- A finite number of zero or more.
  parse_amount : String → Value Num → Parsed Num
  parse_amount why (number n) =
      if not (is_finite n) || less n (literal numbers 0) then problem why else parsed n
  parse_amount why value = problem why

  -- A whole number of zero or more.
  parse_count : String → Value Num → Parsed Num
  parse_count why (number n) =
      if not (is_finite n) || not (is_integer n) || less n (literal numbers 0)
      then problem why
      else parsed n
  parse_count why value = problem why

  -- A whole number of at least `least`, or none.
  unfoldable pub ceiling : Value Num → String → Num → Parsed (Option Num)
  ceiling undefined why least = parsed none
  ceiling null why least = parsed none
  ceiling (text s) why least = if str_eq s "" then parsed none else problem why
  ceiling (number n) why least =
      if not (is_finite n) || not (is_integer n) || less n least
      then problem why
      else parsed (some n)
  ceiling value why least = problem why

  parse_active : Value Num → Parsed Bool
  parse_active (flag b) = parsed b
  parse_active value = problem "active must be true or false"

  unfoldable pub parse_plan_input :
      Assoc (Value Num) → Option (BillingPlan Num) → Parsed (PlanInput Num)
  unfolding parse_name parse_amount parse_count parse_active optional
  parse_plan_input body base =
      parse_name (pick "name" body (base_field (λ p. text p.name) base)) and_then (λ name.
        parse_amount "the hourly price must be zero or more"
          (pick "pricePerHour" body (base_field (λ p. number p.price_per_hour) base))
        and_then (λ price_per_hour.
            parse_amount "free hours must be zero or more" (
              or_default
                (pick "freeHoursPerMonth" body
                  (base_field (λ p. number p.free_hours_per_month) base))
                (number (literal numbers 0)))
            and_then (λ free_hours_per_month.
                parse_count "the server limit must be a whole number, zero or more"
                  (pick "maxServers" body (base_field (λ p. number p.max_servers) base))
                and_then (λ max_servers.
                    parse_count "the database limit must be a whole number, zero or more"
                      (pick "maxDatabases" body (base_field (λ p. number p.max_databases) base))
                    and_then (λ max_databases.
                        ceiling
                          (pick "maxRamMb" body (base_field (λ p. optional p.max_ram_mb) base))
                          "the memory ceiling (MB) must be a whole number of at least 128, or empty for no limit"
                          (literal numbers 128)
                        and_then (λ max_ram_mb.
                            ceiling
                              (pick "maxBackupsPerServer" body
                                (base_field (λ p. optional p.max_backups_per_server) base))
                              "the backups-per-server ceiling must be a whole number of at least 1, or empty for no limit"
                              (literal numbers 1)
                            and_then (λ max_backups_per_server.
                                parse_active (
                                  or_default
                                    (pick "active" body (base_field (λ p. flag p.active) base))
                                    (flag true))
                                and_then (λ active. parsed (record {
                                  name = name;
                                  price_per_hour = price_per_hour;
                                  free_hours_per_month = free_hours_per_month;
                                  max_servers = max_servers;
                                  max_databases = max_databases;
                                  max_ram_mb = max_ram_mb;
                                  max_backups_per_server = max_backups_per_server;
                                  active = active;
                                })))))))))

  -- Why a plan may not be retired.
  unfoldable pub retire_problem : BillingPlan Num → Option BillingError
  retire_problem plan =
      if str_eq plan.id (default_plan numbers).id then some default_plan_kept else none

  -- Why an account may not move to `target`.
  unfoldable pub switch_problem : Option (BillingPlan Num) → String → Option BillingError
  switch_problem none current_plan_id = some no_such_plan
  switch_problem (some target) current_plan_id =
      if str_eq target.id current_plan_id
      then none
      else if not target.active
      then some (plan_not_offered target.name)
      else none

-- The characters of a plan id: lower-case letters and digits.
abbrev is_id_char : ℕ → Bool
is_id_char c = (leb b'a' c && leb c b'z') || (leb b'0' c && leb c b'9')

-- `.replace(/[^a-z0-9]+/g, '-')`; the flag says that the last character written is that dash.
dash_runs : Bool → String → String
dash_runs after_dash String.[] = String.[]
dash_runs after_dash (String.◌∷◌ c s) =
    let kept = String.◌∷◌ c (dash_runs false s) in
    let dashed = dash_runs true s in
    if is_id_char (code c) then kept else if after_dash then dashed else String.◌++◌ "-" dashed

-- `.replace(/^-+|-+$/g, '')`
drop_dashes : String → String
drop_dashes String.[] = String.[]
drop_dashes (String.◌∷◌ c s) =
    let rest = drop_dashes s in if code c == b'-' then rest else String.◌∷◌ c s

drop_last_dashes : String → String
drop_last_dashes String.[] = String.[]
drop_last_dashes (String.◌∷◌ c s) =
    let rest = drop_last_dashes s in
    if (code c == b'-') && str_eq rest "" then String.[] else String.◌∷◌ c rest

-- `fold` is `toLowerCase` followed by `normalize('NFKD')`, which go by the Unicode tables.
unfoldable pub plan_id_from : (String → String) → String → String
unfolding dash_runs drop_dashes drop_last_dashes
plan_id_from fold name = slice_to 40 (drop_last_dashes (drop_dashes (dash_runs false (fold name))))
