-- ===== src/Billing/Pricing.antt =====
-- What a server costs: services/billing-bridge/src/pricing.ts and the quota rule of quotas.ts.
use nexus_infra.Prelude.{String, Bool, true, some, or_else}
use nexus_infra.Billing.Number.{Numbers, literal, max_of}
use nexus_infra.Billing.Types.{ResourceLimits, BillingPlan}

pub data QuotaResource : Type 0 where
  servers databases : QuotaResource

-- How a plan charges, as data.
pub record ChargingModel (Num : Type 0) : Type 0 where
  pub price_per_hour : Num
  pub currency : String
  pub free_hours_per_month : Num
  pub standard_cpu_percent : Num
  pub standard_ram_percent : Num
  pub minimum : Num

module _ (numbers : Numbers) where
  open numbers use {Num, decimal, plus, minus, times, over, round, less}

  unfoldable pub default_plan : BillingPlan Num
  default_plan = record {
    id = "standard";
    name = "Standard";
    price_per_hour = decimal 2 2;
    currency = "EUR";
    free_hours_per_month = literal numbers 100;
    max_servers = literal numbers 5;
    max_databases = literal numbers 5;
    max_ram_mb = some (literal numbers 8192);
    max_backups_per_server = some (literal numbers 10);
    active = true;
  }

  abbrev pub standard_cpu : Num
  standard_cpu = literal numbers 50

  abbrev pub standard_ram : Num
  standard_ram = literal numbers 50

  abbrev pub min_factor : Num
  min_factor = decimal 25 2

  -- To cents.
  unfoldable pub round_currency : Num → Num
  round_currency amount = over (round (times amount (literal numbers 100))) (literal numbers 100)

  unfoldable pub resource_factor : ResourceLimits Num → Num
  resource_factor limits =
      let cpu = or_else limits.cpu_percent standard_cpu in
      let ram = or_else limits.ram_percent standard_ram in
      let factor = over (plus cpu ram) (plus standard_cpu standard_ram) in
      max_of numbers min_factor (round_currency factor)

  unfoldable pub billable_hours : Num → BillingPlan Num → Num
  billable_hours total_hours plan =
      max_of numbers (literal numbers 0) (minus total_hours plan.free_hours_per_month)

  unfoldable pub compute_charge : Num → BillingPlan Num → ResourceLimits Num → Num
  compute_charge total_hours plan limits =
      round_currency (
        times (times (billable_hours total_hours plan) plan.price_per_hour)
          (resource_factor limits))

  unfoldable pub charging_model : BillingPlan Num → ChargingModel Num
  charging_model plan = record {
    price_per_hour = plan.price_per_hour;
    currency = plan.currency;
    free_hours_per_month = plan.free_hours_per_month;
    standard_cpu_percent = standard_cpu;
    standard_ram_percent = standard_ram;
    minimum = min_factor;
  }

  -- The cap that a plan places on one resource, and whether one more stays below it.
  unfoldable pub quota_limit : BillingPlan Num → QuotaResource → Num
  quota_limit plan servers = plan.max_servers
  quota_limit plan databases = plan.max_databases

  unfoldable pub within_quota : BillingPlan Num → QuotaResource → Num → Bool
  within_quota plan resource current = less current (quota_limit plan resource)
