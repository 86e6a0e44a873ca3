-- ===== src/Billing/Service/TopUps.antt =====
-- Top-ups: `requestTopUp`, `handlePaymentConfirmed`, `handlePaymentFailed` and `expireStaleTopUps`
-- of services/billing-bridge/src/service.ts.
pub mod Steps
pub mod Once
pub mod Credit
use nexus_infra.Prelude.{
  ℕ, ◌-◌, String, Bool, true, false, ◌&&◌, ◌||◌, not, Option, none, some, List, [], ◌∷◌, leb,
  length, if◌then◌else◌, or_else, filter, str_eq, concat,
}
use nexus_infra.Prelude.Text.{trim, slice_to}
use nexus_infra.Billing.Number.{Numbers, literal}
use nexus_infra.Billing.Types.{
  CreditWallet, CreditLedgerEntry, CreateLedgerInput, topup, pending, confirmed, failed, expired,
  is_topup, same_status,
}
use nexus_infra.Billing.Wallet.{apply_top_up}
use nexus_infra.Billing.Repository.{
  list_ledger, get_wallet, set_wallet_email, create_ledger_entry, new_entry,
  transition_ledger_status, get_ledger_by_reference, set_balance, list_pending_top_ups,
}
use nexus_infra.Billing.Service.{
  Deps, Action, ◌>>=◌, ◌>>◌, pure, raise, raise_if, reads, writes, updates, fresh_id, emit,
  payment_request, amount_not_positive, too_many_waiting, not_sent,
}

abbrev pub max_pending_topups : ℕ
max_pending_topups = 3

abbrev pub default_topup_timeout_ms : ℕ
default_topup_timeout_ms = 1800000

abbrev pub reason_max : ℕ
reason_max = 300

pub record TopUpResult (Num : Type 0) : Type 0 where
  pub reference : String
  pub entry : CreditLedgerEntry Num

abbrev pub is_waiting : {Num : Type 0} → CreditLedgerEntry Num → Bool
is_waiting e = is_topup e.kind && same_status e.status pending

-- The reason that is kept: trimmed and cut, or none if it is blank or was not given.
unfoldable pub kept_reason : Option String → Option String
kept_reason none = none
kept_reason (some reason) =
    if str_eq (trim reason) "" then none else some (slice_to reason_max (trim reason))

-- `...(customerEmail ? { customerEmail } : {})`
abbrev pub given : Option String → Option String
given none = none
given (some text) = if str_eq text "" then none else some text

module _ (numbers : Numbers) (deps : Deps (numbers.Num)) where
  open numbers use {Num, times, round, less, less_eq}

  -- Two amounts that are equal in cents.
  unfoldable pub same_amount : Num → Num → Bool
  same_amount a b =
      let in_cents = λ (x : Num). round (times x (literal numbers 100)) in
      less_eq (in_cents a) (in_cents b) && less_eq (in_cents b) (in_cents a)

  remember_email : String → Option String → Action Num (Unit {0})
  remember_email user_id none = pure tt
  remember_email user_id (some email) =
      if str_eq email "" then pure tt else writes (set_wallet_email numbers user_id email)

  unfoldable pub request_top_up :
      ℕ → String → Num → Option String → Option String → Action Num (TopUpResult Num)
  unfolding remember_email
  request_top_up now user_id amount currency customer_email = do
    raise_if (not (less (literal numbers 0) amount)) amount_not_positive
    waiting ← reads (λ r. length (filter is_waiting (list_ledger user_id r)))
    raise_if (leb max_pending_topups waiting) (too_many_waiting waiting)
    wallet ← updates (get_wallet numbers user_id)
    remember_email user_id customer_email
    reference_id ← fresh_id deps
    entry_id ← fresh_id deps
    let cur = or_else currency wallet.currency
    let reference = concat ("topup-" ∷ user_id ∷ "-" ∷ reference_id ∷ [])
    let input : CreateLedgerInput Num = record {
      user_id = user_id;
      kind = topup;
      amount = amount;
      currency = cur;
      reference = reference;
      status = pending;
      description = "NexusInfra credit top-up";
    }
    writes (create_ledger_entry entry_id now input)
    sent ← emit deps (
        payment_request reference user_id deps.billing_wallet_id amount cur
          "NexusInfra credit top-up" (given customer_email))
    if sent
        then pure (record { reference = reference; entry = new_entry entry_id now input })
        else do
          _ ← updates (
              transition_ledger_status entry_id (pending ∷ []) failed
                (some "the request could not be sent to FinVault"))
          raise not_sent

  -- Nothing happens to a payment that is no top-up of ours, or whose amount differs.
  credit : CreditLedgerEntry Num → Bool → Action Num (Option (CreditWallet Num))
  credit entry false = pure none
  credit entry true = do
    wallet ← updates (get_wallet numbers entry.user_id)
    credited ←
        updates
          (set_balance numbers entry.user_id (apply_top_up numbers wallet.balance entry.amount))
    pure (some credited)

  abbrev differs : CreditLedgerEntry Num → Option Num → Bool
  differs entry none = false
  differs entry (some amount) = not (same_amount amount entry.amount)

  confirm_entry :
      Option (CreditLedgerEntry Num) → Option Num → Action Num (Option (CreditWallet Num))
  unfolding credit
  confirm_entry none amount = pure none
  confirm_entry (some entry) amount =
      if not (is_topup entry.kind) || differs entry amount then pure none else do
        changed ←
            updates (transition_ledger_status entry.id (pending ∷ expired ∷ []) confirmed none)
        credit entry changed

  unfoldable pub handle_payment_confirmed :
      String → Option Num → Action Num (Option (CreditWallet Num))
  unfolding confirm_entry
  handle_payment_confirmed reference amount = do
    entry ← reads (get_ledger_by_reference reference)
    confirm_entry entry amount

  fail_entry :
      Option (CreditLedgerEntry Num) → Option String → Action Num (Option (CreditLedgerEntry Num))
  fail_entry none reason = pure none
  fail_entry (some entry) reason = if not (is_topup entry.kind) then pure none else do
    changed ← updates (transition_ledger_status entry.id (pending ∷ expired ∷ []) failed reason)
    pure
        (if changed then some (record entry { status = failed; failure_reason = reason }) else none)

  unfoldable pub handle_payment_failed :
      String → Option String → Action Num (Option (CreditLedgerEntry Num))
  unfolding fail_entry
  handle_payment_failed reference reason = do
    entry ← reads (get_ledger_by_reference reference)
    fail_entry entry (kept_reason reason)

  -- The loop of `expireStaleTopUps`.
  unfoldable pub expire_each :
      List (CreditLedgerEntry Num) → Action Num (List (CreditLedgerEntry Num))
  expire_each [] = pure []
  expire_each (entry ∷ entries) = do
    changed ← updates (transition_ledger_status entry.id (pending ∷ []) expired none)
    rest ← expire_each entries
    pure (if changed then record entry { status = expired } ∷ rest else rest)

  unfoldable pub expire_stale_top_ups : ℕ → ℕ → Action Num (List (CreditLedgerEntry Num))
  expire_stale_top_ups now timeout_ms = do
    stale ← reads (list_pending_top_ups (now - timeout_ms))
    expire_each stale
