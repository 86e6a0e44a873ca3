-- ===== src/Billing/Service.antt =====
-- The billing service, services/billing-bridge/src/service.ts: what every operation shares. The
-- operations are in the modules below, one for each part of the service.
pub mod Along
pub mod TopUps
pub mod Servers
pub mod Checks
pub mod PlanInput
pub mod Plans
pub mod Accounts
pub mod Cycle
use nexus_infra.Prelude.{ℕ, ◌+◌, String, Bool, true, false, Option, List, [], ◌∷◌, ◌++◌, length}
use nexus_infra.Billing.Repository.{Repo}

-- `KEY_SUSPEND` and the other routing keys go with the constructors.
pub data BillingEvent (Num : Type 0) : Type 0 where
  payment_request :
      (reference sender receiver : String) (amount : Num) (currency description : String)
      (customer_email : Option String)
      → BillingEvent Num
  server_suspend : (user_id : String) (deployment_ids : List String) → BillingEvent Num
  credit_low :
      (user_id : String) (hours_left available : Num) (currency : String) → BillingEvent Num
  invoice_generate :
      (reference user_id : String) (period_start period_end : ℕ) (amount : Num) (currency : String)
      (customer_email : Option String)
      → BillingEvent Num

-- What the service takes from outside: random ids, numbered by how many were drawn before; whether
-- the broker takes a publish, numbered likewise; how `Date` prints an instant and a month; and the
-- deps with a default.
pub record Deps (Num : Type 0) : Type 0 where
  pub random_uuid : ℕ → String
  pub broker : ℕ → Bool
  pub to_iso_string : ℕ → String
  pub period_label : ℕ → String
  pub billing_wallet_id : String
  pub low_credit_hours : Num

-- The store, the ids drawn, and every event that was handed to the broker, oldest first.
pub record World (Num : Type 0) : Type 0 where
  pub repo : Repo Num
  pub drawn : ℕ
  pub attempts : List (BillingEvent Num)

-- Every `BillingError` that the service throws, with what its message quotes.
pub data BillingError : Type 0 where
  amount_not_positive : BillingError
  too_many_waiting : ℕ → BillingError
  not_sent : BillingError
  bad_plan : String → BillingError
  name_unusable : BillingError
  plan_exists : String → BillingError
  no_such_plan : BillingError
  default_plan_kept : BillingError
  plan_not_offered : String → BillingError
  amount_zero : BillingError
  amount_over_max : BillingError
  reason_missing : BillingError
  under_one_cent : BillingError

-- Its HTTP status.
unfoldable pub status : BillingError → ℕ
status amount_not_positive = 400
status (too_many_waiting n) = 409
status not_sent = 503
status (bad_plan problem) = 400
status name_unusable = 400
status (plan_exists id) = 409
status no_such_plan = 404
status default_plan_kept = 409
status (plan_not_offered name) = 409
status amount_zero = 400
status amount_over_max = 400
status reason_missing = 400
status under_one_cent = 400

pub data Result (A : Type 0) : Type 0 where
  ok : A → Result A
  err : BillingError → Result A

abbrev pub Action : Type 0 → Type 0 → Type 0
Action Num A = World Num → Result A × World Num

unfoldable pub pure : {Num A : Type 0} → A → Action Num A
pure a w = (ok a, w)

unfoldable pub raise : {Num A : Type 0} → BillingError → Action Num A
raise e w = (err e, w)

unfoldable pub raise_if : {Num : Type 0} → Bool → BillingError → Action Num (Unit {0})
raise_if true e w = (err e, w)
raise_if false e w = (ok tt, w)

-- A read of the store, a change of it, and a method that does both.
unfoldable pub reads : {Num A : Type 0} → (Repo Num → A) → Action Num A
reads f w = (ok (f w.repo), w)

unfoldable pub writes : {Num : Type 0} → (Repo Num → Repo Num) → Action Num (Unit {0})
writes f w = (ok tt, record w { repo = f w.repo })

unfoldable pub updates : {Num A : Type 0} → (Repo Num → A × Repo Num) → Action Num A
updates f w = (ok (f w.repo).0, record w { repo = (f w.repo).1 })

unfoldable pub fresh_id : {Num : Type 0} → Deps Num → Action Num String
fresh_id deps w = (ok (deps.random_uuid w.drawn), record w { drawn = w.drawn + 1 })

-- Publishes an event, and says whether the broker took it.
unfoldable pub emit : {Num : Type 0} → Deps Num → BillingEvent Num → Action Num Bool
emit deps event w =
    (ok (deps.broker (length w.attempts)), record w { attempts = w.attempts ++ event ∷ [] })

-- Opening this opens the actions above too.
infixl 5 ◌>>=◌ ◌>>◌
unfoldable pub ◌>>=◌ : {Num A B : Type 0} → Action Num A → (A → Action Num B) → Action Num B
unfolding pure raise raise_if reads writes updates fresh_id emit
◌>>=◌ action rest w =
    let (outcome, later) = action w in
    elim outcome [ err problem ↦ (err problem, later) | ok value ↦ rest value later ]

abbrev pub ◌>>◌ : {Num B : Type 0} → Action Num (Unit {0}) → Action Num B → Action Num B
m >> k = m >>= λ _. k
