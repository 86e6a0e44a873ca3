-- ===== src/Billing/Repository/Wallets.antt =====
-- The wallets of the in-memory store (services/billing-bridge/src/repository.ts).
use nexus_infra.Prelude.{
  ℕ, String, ◌≡◌, sym, ap, ◌∙◌, Option, none, some, inl, inr, arith, str_eq, eq_iff, if◌then◌else◌,
  Option-cases, Bool-cases, or_else,
}
use nexus_infra.Prelude.Assoc.{lookup, insert, lookup-insert}
use nexus_infra.Billing.Number.{Numbers}
use nexus_infra.Billing.Types.{CreditWallet}
use nexus_infra.Billing.Repository.{
  Repo, get_wallet, set_balance, empty_wallet, set_wallet_email, set_low_credit_warned_at,
}

module _ (numbers : Numbers) where
  open numbers use {Num}

  wallet_in : String → Repo Num → CreditWallet Num
  wallet_in user_id r = or_else (lookup user_id r.wallets) (empty_wallet numbers user_id)

  get_wallet-value :
      (user_id : String) (r : Repo Num) → (get_wallet numbers user_id r).0 ≡ wallet_in user_id r
  unfolding get_wallet wallet_in
  get_wallet-value user_id r = ground arith

  -- What an account has: a wallet that was never read is an empty one.
  abbrev pub balance_of : String → Repo Num → Num
  balance_of user_id r = (get_wallet numbers user_id r).0.balance

  pub balance_of-get_wallet :
      (user_id reader : String) (r : Repo Num)
      → balance_of user_id (get_wallet numbers reader r).1 ≡ balance_of user_id r
  unfolding get_wallet
  balance_of-get_wallet user_id reader r = elim (Option-cases (lookup reader r.wallets)) [
    | inr (wallet, e) ↦ rw (e, get_wallet)
    | inl e ↦ ground (
      arith,
      e,
      lookup-insert reader user_id (empty_wallet numbers reader) r.wallets,
      eq_iff reader user_id,
    )
  ]

  pub balance_of-set_balance :
      (user_id owner : String) (balance : Num) (r : Repo Num)
      → balance_of user_id (set_balance numbers owner balance r).1
        ≡ (if str_eq owner user_id then balance else balance_of user_id r)
  unfolding set_balance wallet_in
  balance_of-set_balance user_id owner balance r =
      let w = (get_wallet numbers owner r).0 in
      let r' = (get_wallet numbers owner r).1 in
      let updated : CreditWallet Num = record w { balance = balance } in
      rw
        (
          get_wallet-value user_id (record r' { wallets = insert owner updated r'.wallets }),
          balance_of,
        )
        (rw (lookup-insert owner user_id updated r'.wallets)
          (elim (Bool-cases (str_eq owner user_id)) [
            | inl same ↦ rw same
            | inr other ↦ rw other (
                sym (ap (λ (x : CreditWallet Num). x.balance) (get_wallet-value user_id r'))
                ∙ balance_of-get_wallet user_id owner r)
          ]))

  pub ledger-get_wallet :
      (user_id : String) (r : Repo Num) → (get_wallet numbers user_id r).1.ledger ≡ r.ledger
  unfolding get_wallet
  ledger-get_wallet user_id r = ground arith

  pub ledger-set_balance :
      (user_id : String) (balance : Num) (r : Repo Num)
      → (set_balance numbers user_id balance r).1.ledger ≡ r.ledger
  unfolding set_balance
  ledger-set_balance user_id balance r = ledger-get_wallet user_id r

  pub balance_of_wallets :
      (user_id : String) (r r' : Repo Num)
      → r'.wallets ≡ r.wallets
      → balance_of user_id r' ≡ balance_of user_id r
  unfolding wallet_in
  balance_of_wallets user_id r r' same =
      rw (get_wallet-value user_id r', get_wallet-value user_id r, balance_of) (rw same)

  pub ledger-set_wallet_email :
      (user_id email : String) (r : Repo Num)
      → (set_wallet_email numbers user_id email r).ledger ≡ r.ledger
  unfolding set_wallet_email
  ledger-set_wallet_email user_id email r = ledger-get_wallet user_id r

  pub ledger-set_low_credit_warned_at :
      (user_id : String) (at : Option ℕ) (r : Repo Num)
      → (set_low_credit_warned_at numbers user_id at r).ledger ≡ r.ledger
  unfolding set_low_credit_warned_at
  ledger-set_low_credit_warned_at user_id none r = ledger-get_wallet user_id r
  ledger-set_low_credit_warned_at user_id (some at) r = ledger-get_wallet user_id r
