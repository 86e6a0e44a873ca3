-- ===== src/Billing/Wallet.antt =====
-- Credit arithmetic: services/billing-bridge/src/wallet.ts.
use nexus_infra.Prelude.{Bool}
use nexus_infra.Billing.Number.{Numbers, literal, max_of}
use nexus_infra.Billing.Pricing.{round_currency}

module _ (numbers : Numbers) where
  open numbers use {Num, plus, minus, less_eq}

  unfoldable pub apply_top_up : Num → Num → Num
  apply_top_up balance amount =
      round_currency numbers (plus balance (max_of numbers (literal numbers 0) amount))

  unfoldable pub apply_charge : Num → Num → Num
  apply_charge balance amount =
      round_currency numbers (minus balance (max_of numbers (literal numbers 0) amount))

  unfoldable pub can_cover : Num → Num → Bool
  can_cover balance amount = less_eq amount balance
