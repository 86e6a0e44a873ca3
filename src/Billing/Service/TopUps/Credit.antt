-- ===== src/Billing/Service/TopUps/Credit.antt =====
-- What a confirmation does to the balances (`handlePaymentConfirmed` of
-- services/billing-bridge/src/service.ts).
use nexus_infra.Prelude.{
  String, ◌≡◌, refl, true, ◌||◌, not, Option, none, some, inl, inr, [], ◌∷◌, arith, str_eq,
  if◌then◌else◌, Bool-cases, Option-cases, find,
}
use nexus_infra.Billing.Number.{Numbers}
use nexus_infra.Billing.Types.{
  CreditWallet, CreditLedgerEntry, pending, expired, confirmed, is_topup,
}
use nexus_infra.Billing.Wallet.{apply_top_up}
use nexus_infra.Billing.Repository.{
  Repo, has_id, update_first, may_move, moved, get_ledger_by_reference, transition_ledger_status,
  get_wallet, set_balance,
}
use nexus_infra.Billing.Repository.Wallets.{
  balance_of, balance_of-get_wallet, balance_of-set_balance, balance_of_wallets,
}
use nexus_infra.Billing.Service.{Deps, World, ok, ◌>>=◌}
use nexus_infra.Billing.Service.TopUps.{credit, confirm_entry, handle_payment_confirmed, differs}

module _ (numbers : Numbers) (deps : Deps (numbers.Num)) where
  open numbers use {Num}

  -- The balances after a confirmation, by what it returned.
  abbrev pub Effect : String → World Num → World Num → Option (CreditWallet Num) → Type 0
  Effect reference w w1 none =
      (user_id : String) → balance_of numbers user_id w1.repo ≡ balance_of numbers user_id w.repo
  Effect reference w w1 (some wallet) =
      (e : CreditLedgerEntry Num) × (get_ledger_by_reference reference w.repo ≡ some e)
      × (is_topup e.kind ≡ true)
      × ((user_id : String)
          → balance_of numbers user_id w1.repo ≡ (
              if str_eq e.user_id user_id
              then apply_top_up numbers (balance_of numbers e.user_id w.repo) e.amount
              else balance_of numbers user_id w.repo))

  credited :
      (user_id owner : String) (amount : Num) (r r1 : Repo Num)
      → r1.wallets ≡ r.wallets
      → let read = get_wallet numbers owner r1 in
        balance_of numbers user_id
          (set_balance numbers owner (apply_top_up numbers read.0.balance amount) read.1).1
        ≡ (if str_eq owner user_id
            then apply_top_up numbers (balance_of numbers owner r) amount
            else balance_of numbers user_id r)
  credited user_id owner amount r r1 same =
      rw
        (
          balance_of-set_balance numbers user_id owner _ (get_wallet numbers owner r1).1,
          balance_of-get_wallet numbers user_id owner r1,
          balance_of_wallets numbers user_id r r1 same,
        )
        (rw (balance_of_wallets numbers owner r r1 same) refl)

  confirm_entry-Effect :
      (reference : String) (e : CreditLedgerEntry Num) (amount : Option Num) (w w1 : World Num)
      (result : Option (CreditWallet Num))
      → get_ledger_by_reference reference w.repo ≡ some e
      → confirm_entry numbers deps (some e) amount w ≡ (ok result, w1)
      → Effect reference w w1 result
  unfolding confirm_entry credit ◌>>=◌ transition_ledger_status
  confirm_entry-Effect reference e amount w w1 none here h = λ user_id.
      elim (Bool-cases (not (is_topup e.kind) || differs numbers deps e amount)) [
        | inl refused ↦ let same : w1 ≡ w = ground arith in rw same
        | inr fits ↦
            elim (Bool-cases
              (may_move (pending ∷ expired ∷ []) (find (has_id e.id) w.repo.ledger))) [
                | inl may ↦ absurd (ground arith)
                | inr stays ↦ let same : w1 ≡ w = ground arith in rw same
              ]
      ]
  confirm_entry-Effect reference e amount w w1 (some wallet) here h =
      elim (Bool-cases (not (is_topup e.kind) || differs numbers deps e amount)) [
        | inl refused ↦ absurd (ground arith)
        | inr fits ↦
            elim (Bool-cases
              (may_move (pending ∷ expired ∷ []) (find (has_id e.id) w.repo.ledger))) [
                | inr stays ↦ absurd (ground arith)
                | inl may ↦
                    let r1 : Repo Num = record w.repo {
                      ledger = update_first (has_id e.id) (moved confirmed none) w.repo.ledger;
                    } in
                    let read = get_wallet numbers e.user_id r1 in
                    let balance = apply_top_up numbers read.0.balance e.amount in
                    let same : w1.repo ≡ (set_balance numbers e.user_id balance read.1).1 =
                      ground arith in
                    (
                      e,
                      here,
                      ground arith,
                      λ user_id. rw same (credited user_id e.user_id e.amount w.repo r1 refl),
                    )
              ]
      ]

  -- A confirmation that returns no wallet changes no balance. One that returns a wallet adds the
  -- amount of the top-up that the reference names to its owner's balance, and changes no other.
  pub handle_payment_confirmed-Effect :
      (reference : String) (amount : Option Num) (w w1 : World Num)
      (result : Option (CreditWallet Num))
      → handle_payment_confirmed numbers deps reference amount w ≡ (ok result, w1)
      → Effect reference w w1 result
  unfolding handle_payment_confirmed confirm_entry ◌>>=◌
  handle_payment_confirmed-Effect reference amount w w1 none h =
      elim (Option-cases (get_ledger_by_reference reference w.repo)) [
        | inl missing ↦ λ user_id. let same : w1 ≡ w = ground arith in rw same
        | inr (e, here) ↦ confirm_entry-Effect reference e amount w w1 none here (rw here at h)
      ]
  handle_payment_confirmed-Effect reference amount w w1 (some wallet) h =
      elim (Option-cases (get_ledger_by_reference reference w.repo)) [
        | inl missing ↦ absurd (ground arith)
        | inr (e, here) ↦
            confirm_entry-Effect reference e amount w w1 (some wallet) here (rw here at h)
      ]
