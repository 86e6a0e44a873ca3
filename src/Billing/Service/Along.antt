-- ===== src/Billing/Service/Along.antt =====
-- What an operation of the billing service does to the store, put together from what the store's
-- methods do: one rule for each way to build an action.
use nexus_infra.Prelude.{ℕ, String, ◌≡◌, Bool, true, false, Option, List, if◌then◌else◌, any}
use nexus_infra.Billing.Number.{Numbers}
use nexus_infra.Billing.Types.{
  BillingPlan, BilledDeployment, LedgerStatus, confirmed, failed, CreateLedgerInput,
  CreateCycleInput, same_status,
}
use nexus_infra.Billing.Repository.{
  Repo, get_wallet, set_balance, set_wallet_email, set_low_credit_warned_at, create_ledger_entry,
  transition_ledger_status, save_deployment, close_interval, create_cycle, save_plan, set_user_plan,
}
use nexus_infra.Billing.Service.{
  Deps, World, Result, ok, err, Action, BillingError, BillingEvent, pure, raise, raise_if, reads,
  writes, updates, fresh_id, emit, ◌>>=◌,
}

-- Whether it returns or throws, the action takes the store from `r` to a store that `R` allows.
pub record Along {Num A : Type 0} (R : Repo Num → Repo Num → Type 0) (m : Action Num A)
    : Type 0 where
  pub at : (w : World Num) → R w.repo (m w).1.repo

module _ (numbers : Numbers) where
  open numbers use {Num}

  -- A relation that the store's methods keep to, those that open an interval aside. No operation
  -- moves a ledger entry that is confirmed or failed.
  pub record Allows (R : Repo Num → Repo Num → Type 0) : Type 0 where
    pub stay : (r : Repo Num) → R r r
    pub chain : (a b c : Repo Num) → R a b → R b c → R a c
    pub wallet_read : (user_id : String) (r : Repo Num) → R r (get_wallet numbers user_id r).1
    pub balance_set :
        (user_id : String) (balance : Num) (r : Repo Num)
        → R r (set_balance numbers user_id balance r).1
    pub email_set :
        (user_id email : String) (r : Repo Num) → R r (set_wallet_email numbers user_id email r)
    pub warned_set :
        (user_id : String) (at : Option ℕ) (r : Repo Num)
        → R r (set_low_credit_warned_at numbers user_id at r)
    pub entry_created :
        (id : String) (now : ℕ) (input : CreateLedgerInput Num) (r : Repo Num)
        → R r (create_ledger_entry id now input r)
    pub entry_moved :
        (id : String) (from : List LedgerStatus) (to : LedgerStatus) (reason : Option String)
        (r : Repo Num)
        → any (λ s. same_status s confirmed) from ≡ false
        → any (λ s. same_status s failed) from ≡ false
        → R r (transition_ledger_status id from to reason r).1
    pub deployment_saved : (d : BilledDeployment Num) (r : Repo Num) → R r (save_deployment d r)
    pub interval_closed :
        (deployment_id : String) (at : ℕ) (r : Repo Num) → R r (close_interval deployment_id at r)
    pub cycle_created :
        (id : String) (now : ℕ) (input : CreateCycleInput Num) (r : Repo Num)
        → R r (create_cycle id now input r)
    pub plan_saved : (plan : BillingPlan Num) (r : Repo Num) → R r (save_plan plan r)
    pub user_plan_set :
        (user_id plan_id : String) (r : Repo Num) → R r (set_user_plan user_id plan_id r)

module _ {Num : Type 0} {R : Repo Num → Repo Num → Type 0} where
  pub writes-Along : (f : Repo Num → Repo Num) → ((r : Repo Num) → R r (f r)) → Along R (writes f)
  unfolding writes
  writes-Along f h = record { at = λ w. h w.repo }

  pub updates-Along :
      {A : Type 0} (f : Repo Num → A × Repo Num)
      → ((r : Repo Num) → R r (f r).1)
      → Along R (updates f)
  unfolding updates
  updates-Along f h = record { at = λ w. h w.repo }

  pub if-Along :
      {A : Type 0} (b : Bool) (m n : Action Num A)
      → Along R m
      → Along R n
      → Along R (if b then m else n)
  if-Along true m n hm hn = hm
  if-Along false m n hm hn = hn

module _ (numbers : Numbers) {R : Repo (numbers.Num) → Repo (numbers.Num) → Type 0}
    (allows : Allows numbers R) where
  open numbers use {Num}

  pub pure-Along : {A : Type 0} (a : A) → Along R (pure {A = A} a)
  unfolding pure
  pure-Along a = record { at = λ w. allows.stay w.repo }

  pub raise-Along : {A : Type 0} (e : BillingError) → Along R (raise {A = A} e)
  unfolding raise
  raise-Along e = record { at = λ w. allows.stay w.repo }

  pub raise_if-Along : (b : Bool) (e : BillingError) → Along R (raise_if b e)
  unfolding raise_if
  raise_if-Along true e = record { at = λ w. allows.stay w.repo }
  raise_if-Along false e = record { at = λ w. allows.stay w.repo }

  pub reads-Along : {A : Type 0} (f : Repo Num → A) → Along R (reads f)
  unfolding reads
  reads-Along f = record { at = λ w. allows.stay w.repo }

  pub fresh_id-Along : (deps : Deps Num) → Along R (fresh_id deps)
  unfolding fresh_id
  fresh_id-Along deps = record { at = λ w. allows.stay w.repo }

  pub emit-Along : (deps : Deps Num) (event : BillingEvent Num) → Along R (emit deps event)
  unfolding emit
  emit-Along deps event = record { at = λ w. allows.stay w.repo }

  pub bind-Along :
      {A B : Type 0} (m : Action Num A) (k : A → Action Num B)
      → Along R m
      → ((a : A) → Along R (k a))
      → Along R (m >>= k)
  unfolding ◌>>=◌
  bind-Along {A} {B} m k hm hk = record { at = λ w. go w (m w) (hm.at w) }
    where
      go :
          (w : World Num) (r : Result A × World Num)
          → R w.repo r.1.repo
          → R w.repo (
              let (outcome, later) = r in
              let next : Result B × World Num = elim outcome [
                | err problem ↦ (err problem, later)
                | ok value ↦ k value later
              ] in
              next.1.repo)
      go w (ok a, later) h = allows.chain w.repo later.repo _ h ((hk a).at later)
      go w (err e, later) h = h

pub ruleset along_rules = (
  writes-Along, updates-Along, if-Along, pure-Along, raise-Along, raise_if-Along, reads-Along,
  fresh_id-Along, emit-Along, bind-Along,
)
