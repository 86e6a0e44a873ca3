-- ===== src/Billing/Repository/Intervals.antt =====
-- The runtime intervals of the in-memory store: at most one is open for a deployment
-- (services/billing-bridge/src/repository.ts).
use nexus_infra.Prelude.{
  ℕ, ◌+◌, ◌-◌, ◌≤◌, String, ◌≡◌, refl, true, false, none, some, List, [], ◌∷◌, ◌++◌, arith,
  find_last, eq_iff, if◌then◌else◌, any,
}
use nexus_infra.Billing.Types.{ServerBillingRecord, OpenIntervalInput}
use nexus_infra.Billing.Repository.{
  Repo, update_last, open_for, stop_at, new_interval, open_interval, close_interval,
  get_open_interval,
}

module _ {Num : Type 0} where
  -- How many intervals of a deployment are open.
  unfoldable pub open_count : String → List (ServerBillingRecord Num) → ℕ
  open_count d [] = 0
  open_count d (i ∷ is) = (if open_for d i then 1 else 0) + open_count d is

  pub record OneOpen (r : Repo Num) : Type 0 where
    pub at_most : (d : String) → open_count d r.intervals ≤ 1

  -- From a store with at most one open interval for each server to another such store.
  pub record KeepsOne (r r' : Repo Num) : Type 0 where
    pub keeps : OneOpen r → OneOpen r'

  pub KeepsOne-of_intervals : {r r' : Repo Num} → r'.intervals ≡ r.intervals → KeepsOne r r'
  KeepsOne-of_intervals same = record {
    keeps = λ one. record { at_most = λ d. rw same (one.at_most d) };
  }

  pub KeepsOne-trans : (a b c : Repo Num) → KeepsOne a b → KeepsOne b c → KeepsOne a c
  KeepsOne-trans a b c f g = record { keeps = λ one. g.keeps (f.keeps one) }

  open_count-append :
      (d : String) (is : List (ServerBillingRecord Num)) (i : ServerBillingRecord Num)
      → open_count d (is ++ i ∷ []) ≡ open_count d is + (if open_for d i then 1 else 0)
  unfolding open_count
  open_count-append d [] i = omega arith
  open_count-append d (j ∷ is) i = omega (arith, open_count-append d is i)

  any_open-count :
      (d : String) (is : List (ServerBillingRecord Num))
      → any (open_for d) is ≡ false
      → open_count d is ≡ 0
  unfolding open_count
  any_open-count d [] h = refl
  any_open-count d (i ∷ is) h = ground (arith, any_open-count d is)

  any-true :
      (d : String) (is : List (ServerBillingRecord Num))
      → any (open_for d) is ≡ true
      → 1 ≤ open_count d is
  unfolding open_count
  any-true d [] h = ground (arith, h)
  any-true d (i ∷ is) h = ground (arith, any-true d is)

  find_last-none :
      (d : String) (is : List (ServerBillingRecord Num))
      → find_last (open_for d) is ≡ none
      → open_count d is ≡ 0
  unfolding open_count
  find_last-none d [] h = refl
  find_last-none d (i ∷ is) h = ground (arith, find_last-none d is)

  -- Closing never opens, and takes one away where there was one.
  update_last-open_count :
      (e d : String) (at : ℕ) (is : List (ServerBillingRecord Num))
      → open_count e (update_last (open_for d) (stop_at at) is) ≤ open_count e is
  unfolding open_count update_last
  update_last-open_count e d at [] = omega arith
  update_last-open_count e d at (i ∷ is) = ground (arith, update_last-open_count e d at is)

  update_last-open_count_self :
      (d : String) (at : ℕ) (is : List (ServerBillingRecord Num))
      → open_count d (update_last (open_for d) (stop_at at) is) ≡ open_count d is - 1
  unfolding open_count update_last
  update_last-open_count_self d at [] = omega arith
  update_last-open_count_self d at (i ∷ is) =
      ground (arith, update_last-open_count_self d at is, any_open-count d is, any-true d is)

  pub close_interval-OneOpen :
      (d : String) (at : ℕ) (r : Repo Num) → OneOpen r → OneOpen (close_interval d at r)
  unfolding close_interval
  close_interval-OneOpen d at r one = record {
    at_most = λ e. omega (arith, update_last-open_count e d at r.intervals, one.at_most e);
  }

  pub open_interval-OneOpen :
      (id : String) (now : ℕ) (input : OpenIntervalInput Num) (r : Repo Num)
      → open_count input.deployment_id r.intervals ≡ 0
      → OneOpen r
      → OneOpen (open_interval id now input r)
  unfolding open_interval
  open_interval-OneOpen id now input r free one = record {
    at_most = λ e. ground (
      arith,
      open_count-append e r.intervals (new_interval id now input),
      one.at_most e,
      eq_iff input.deployment_id e,
    );
  }

  pub open_count-close_interval :
      (d : String) (at : ℕ) (r : Repo Num)
      → OneOpen r
      → open_count d (close_interval d at r).intervals ≡ 0
  unfolding close_interval
  open_count-close_interval d at r one =
      omega (arith, update_last-open_count_self d at r.intervals, one.at_most d)

  pub get_open_interval-none :
      (d : String) (r : Repo Num) → get_open_interval d r ≡ none → open_count d r.intervals ≡ 0
  unfolding get_open_interval
  get_open_interval-none d r h = find_last-none d r.intervals h

  find_last-append :
      (d : String) (is : List (ServerBillingRecord Num)) (i : ServerBillingRecord Num)
      → open_for d i ≡ true
      → find_last (open_for d) (is ++ i ∷ []) ≡ some i
  find_last-append d [] i h = rw h
  find_last-append d (j ∷ is) i h = rw (find_last-append d is i h)

  -- What was opened last is the interval that is found open.
  pub get_open_interval-open_interval :
      (id : String) (now : ℕ) (input : OpenIntervalInput Num) (r : Repo Num)
      → get_open_interval input.deployment_id (open_interval id now input r)
        ≡ some (new_interval id now input)
  unfolding get_open_interval open_interval
  get_open_interval-open_interval id now input r =
      find_last-append input.deployment_id r.intervals (new_interval id now input)
        (ground (arith, eq_iff input.deployment_id input.deployment_id))
