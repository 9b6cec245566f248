-- ===== src/Billing/Records.antt =====
-- The rows and reports of apps/api/src/procedures/billing.ts, and the store that it is given.
use uscs.Common.{ℕ, String, Bool, Option, List}
use uscs.Api.Action.{Action}
use uscs.Api.Audit.{AuditEvent}

pub record UsageRecord : Type 0 where
  pub id : String
  pub organization_id : String
  pub metric : String
  pub quantity : ℕ
  pub recorded_at : ℕ

pub record Budget : Type 0 where
  pub organization_id : String
  pub metric : String
  pub limit_quantity : ℕ
  pub hard_cap : Bool
  pub updated_by : Option String
  pub created_at : ℕ
  pub updated_at : ℕ

pub record BudgetSave : Type 0 where
  pub organization_id : String
  pub metric : String
  pub limit_quantity : ℕ
  pub hard_cap : Bool
  pub updated_by : String

-- The store and the clock; a method that the store may lack is an option.
pub record BillingDeps (W : Type 0) : Type 0 where
  pub list_usage_records : String → String → Action W (List UsageRecord)
  pub list_usage_for_service : Option (String → String → ℕ → Action W (List UsageRecord))
  pub list_budgets : Option (String → String → Action W (List Budget))
  pub get_budget_for_service : Option (String → String → Action W (Option Budget))
  pub save_budget : Option (BudgetSave → Action W Budget)
  pub delete_budget : Option (String → String → String → Action W Bool)
  pub record_audit_event : AuditEvent → Action W (Unit {0})
  pub now : W → ℕ

pub record UsageTotal : Type 0 where
  pub metric : String
  pub total : ℕ
  pub records : ℕ
  pub last_recorded_at : Option ℕ

pub record UsageReport : Type 0 where
  pub totals : List UsageTotal
  pub records : List UsageRecord
