-- ===== src/Billing.antt =====
-- The billing bridge, services/billing-bridge/src.
pub mod Number
pub mod Types
pub mod Pricing
pub mod Wallet
pub mod Tracking
pub mod Calendar
pub mod Cost
pub mod Standing
pub mod Repository
pub mod Service
pub mod Operation
