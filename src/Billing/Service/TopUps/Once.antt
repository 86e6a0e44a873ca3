-- ===== src/Billing/Service/TopUps/Once.antt =====
-- A confirmation credits a top-up once (`handlePaymentConfirmed` of
-- services/billing-bridge/src/service.ts).
use nexus_infra.Prelude.{
  String, ◌≡◌, refl, ◌∙◌, true, false, ◌||◌, not, Option, none, some, inl, inr, [], ◌∷◌, arith,
  Bool-cases, Option-cases, find, eq_refl,
}
use nexus_infra.Billing.Number.{Numbers}
use nexus_infra.Billing.Types.{
  CreditWallet, CreditLedgerEntry, pending, expired, confirmed, is_topup,
}
use nexus_infra.Billing.Repository.{
  Repo, has_id, update_first, may_move, moved, get_ledger_by_reference, transition_ledger_status,
  get_wallet,
}
use nexus_infra.Billing.Wallet.{apply_top_up}
use nexus_infra.Billing.Repository.Wallets.{ledger-get_wallet, ledger-set_balance}
use nexus_infra.Billing.Repository.Ledger.{find_id-update_first}
use nexus_infra.Billing.Service.{Deps, World, ok, ◌>>=◌}
use nexus_infra.Billing.Service.TopUps.{credit, confirm_entry, handle_payment_confirmed, differs}

module _ (numbers : Numbers) (deps : Deps (numbers.Num)) where
  open numbers use {Num}

  -- The entry that `id` names has been confirmed.
  pub record IsConfirmed (id : String) (r : Repo Num) : Type 0 where
    pub entry : CreditLedgerEntry Num
    pub found : find (has_id id) r.ledger ≡ some entry
    pub status : entry.status ≡ confirmed

  -- A confirmation of an entry that was confirmed before does nothing.
  pub confirm_again :
      (reference : String) (e : CreditLedgerEntry Num) (amount : Option Num) (w : World Num)
      → get_ledger_by_reference reference w.repo ≡ some e
      → IsConfirmed e.id w.repo
      → handle_payment_confirmed numbers deps reference amount w ≡ (ok none, w)
  unfolding handle_payment_confirmed ◌>>=◌ transition_ledger_status
  confirm_again reference e amount w here was = ground (arith, was.found, was.status)

  moved_entry :
      (e : CreditLedgerEntry Num) (r : Repo Num)
      → may_move (pending ∷ expired ∷ []) (find (has_id e.id) r.ledger) ≡ true
      → IsConfirmed e.id
          (record r { ledger = update_first (has_id e.id) (moved confirmed none) r.ledger })
  moved_entry e r may = elim (Option-cases (find (has_id e.id) r.ledger)) [
    | inl missing ↦ absurd (absurd_of (rw missing at may))
    | inr (e0, there) ↦ record {
      entry = moved confirmed none e0;
      found = find_id-update_first e.id e.id confirmed none r.ledger ∙ rw (eq_refl e.id, there);
      status = refl;
    }
  ]
    where
      absurd_of : false ≡ true → ⊥
      absurd_of h = cc

  IsConfirmed-of_ledger :
      {id : String} {r r' : Repo Num} → r'.ledger ≡ r.ledger → IsConfirmed id r → IsConfirmed id r'
  IsConfirmed-of_ledger same c = record {
    entry = c.entry;
    found = rw same c.found;
    status = c.status;
  }

  confirm_entry-IsConfirmed :
      (e : CreditLedgerEntry Num) (amount : Option Num) (w w1 : World Num)
      (wallet : CreditWallet Num)
      → confirm_entry numbers deps (some e) amount w ≡ (ok (some wallet), w1)
      → IsConfirmed e.id w1.repo
  unfolding confirm_entry credit ◌>>=◌ transition_ledger_status
  confirm_entry-IsConfirmed e amount w w1 wallet h =
      elim (Bool-cases (not (is_topup e.kind) || differs numbers deps e amount)) [
        | inl refused ↦ absurd (ground arith)
        | inr fits ↦
            elim (Bool-cases
              (may_move (pending ∷ expired ∷ []) (find (has_id e.id) w.repo.ledger))) [
                | inl may ↦
                    let r1 : Repo Num = record w.repo {
                      ledger = update_first (has_id e.id) (moved confirmed none) w.repo.ledger;
                    } in
                    let read = get_wallet numbers e.user_id r1 in
                    let balance = apply_top_up numbers read.0.balance e.amount in
                    let same : w1.repo.ledger ≡ r1.ledger = ground (
                      arith,
                      ledger-set_balance numbers e.user_id balance read.1,
                      ledger-get_wallet numbers e.user_id r1,
                    ) in
                    IsConfirmed-of_ledger same (moved_entry e w.repo may)
                | inr stays ↦ absurd (ground arith)
              ]
      ]

  -- A confirmation that credits marks the entry.
  pub IsConfirmed-once :
      (reference : String) (amount : Option Num) (w w1 : World Num) (wallet : CreditWallet Num)
      → handle_payment_confirmed numbers deps reference amount w ≡ (ok (some wallet), w1)
      → (e : CreditLedgerEntry Num) × (get_ledger_by_reference reference w.repo ≡ some e)
        × IsConfirmed e.id w1.repo
  unfolding handle_payment_confirmed ◌>>=◌
  IsConfirmed-once reference amount w w1 wallet h =
      elim (Option-cases (get_ledger_by_reference reference w.repo)) [
        | inl missing ↦ absurd (ground arith)
        | inr (e, here) ↦ (e, here, confirm_entry-IsConfirmed e amount w w1 wallet (rw here at h))
      ]
