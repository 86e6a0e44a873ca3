-- ===== src/Billing/Types.antt =====
-- The records of billing: services/billing-bridge/src/types.ts, the plan of pricing.ts and the
-- resource limits of shared/src/events.ts. A timestamp, an ISO string there, is its epoch
-- milliseconds: ISO strings of one format are ordered and equal as their instants are.
use nexus_infra.Prelude.{ℕ, String, Bool, true, false, Option}

pub data IoPriority : Type 0 where
  low normal high : IoPriority

pub data RestartPolicy : Type 0 where
  never on_failure always : RestartPolicy

pub record ResourceLimits (Num : Type 0) : Type 0 where
  pub ram_mb : Option Num
  pub cpu_cores : Option Num
  pub cpu_percent : Option Num
  pub ram_percent : Option Num
  pub disk_percent : Option Num
  pub swap_percent : Option Num
  pub io_priority : Option IoPriority
  pub restart_policy : Option RestartPolicy
  pub oom_kill : Option Bool

pub record BillingPlan (Num : Type 0) : Type 0 where
  pub id : String
  pub name : String
  pub price_per_hour : Num
  pub currency : String
  pub free_hours_per_month : Num
  pub max_servers : Num
  pub max_databases : Num
  pub max_ram_mb : Option Num
  pub max_backups_per_server : Option Num
  pub active : Bool

pub data LedgerType : Type 0 where
  topup charge : LedgerType

pub data LedgerStatus : Type 0 where
  pending confirmed failed expired : LedgerStatus

pub data CycleStatus : Type 0 where
  opened paid overdue : CycleStatus

pub record ServerBillingRecord (Num : Type 0) : Type 0 where
  pub id : String
  pub user_id : String
  pub deployment_id : String
  pub plan_id : String
  pub limits : ResourceLimits Num
  pub started_at : ℕ
  pub stopped_at : Option ℕ
  pub created_at : ℕ

pub record BilledDeployment (Num : Type 0) : Type 0 where
  pub deployment_id : String
  pub user_id : String
  pub limits : ResourceLimits Num

pub record CreditWallet (Num : Type 0) : Type 0 where
  pub user_id : String
  pub balance : Num
  pub currency : String

pub record CreditLedgerEntry (Num : Type 0) : Type 0 where
  pub id : String
  pub user_id : String
  pub kind : LedgerType
  pub amount : Num
  pub currency : String
  pub reference : String
  pub status : LedgerStatus
  pub description : String
  pub failure_reason : Option String
  pub created_at : ℕ

pub record BillingCycleRecord (Num : Type 0) : Type 0 where
  pub id : String
  pub user_id : String
  pub period_start : ℕ
  pub period_end : ℕ
  pub total_cost : Num
  pub currency : String
  pub status : CycleStatus
  pub created_at : ℕ

pub record OpenIntervalInput (Num : Type 0) : Type 0 where
  pub user_id : String
  pub deployment_id : String
  pub plan_id : String
  pub limits : ResourceLimits Num
  pub started_at : ℕ

pub record CreateLedgerInput (Num : Type 0) : Type 0 where
  pub user_id : String
  pub kind : LedgerType
  pub amount : Num
  pub currency : String
  pub reference : String
  pub status : LedgerStatus
  pub description : String

pub record CreateCycleInput (Num : Type 0) : Type 0 where
  pub user_id : String
  pub period_start : ℕ
  pub period_end : ℕ
  pub total_cost : Num
  pub currency : String
  pub status : CycleStatus

abbrev pub is_topup : LedgerType → Bool
is_topup topup = true
is_topup charge = false

abbrev pub same_status : LedgerStatus → LedgerStatus → Bool
same_status pending pending = true
same_status confirmed confirmed = true
same_status failed failed = true
same_status expired expired = true
same_status _ _ = false
