-- ===== src/PaymentPlans/Store.antt =====
-- The rows that packages/services/src/payment-plans.ts reads and writes (packages/db/prisma/schema.prisma),
-- over those of receipts.ts, and its errors. Names and texts are numbers; an offset in days is not
-- negative.
use desire_mlm_project.Base.{ℕ, Bool, Option, List}
use desire_mlm_project.Table.{Table}
use desire_mlm_project.Payouts.Store.{AuditContext}
use desire_mlm_project.Receipts.Store.{DemandStatus, Demand, ReceiptError}
use desire_mlm_project.Receipts.Store as Receipts

pub record PaymentPlan : Type 0 where
  pub org_id : ℕ
  pub project_id : Option ℕ
  pub code : ℕ
  pub name : ℕ

pub record PaymentPlanMilestone (D : Type 0) : Type 0 where
  pub payment_plan_id : ℕ
  pub sequence : ℕ
  pub label : ℕ
  pub pct_of_agreement_value : D
  pub due_days_offset : ℕ

pub record CreatePaymentPlanMilestoneInput (D : Type 0) : Type 0 where
  pub sequence : ℕ
  pub label : ℕ
  pub pct_of_agreement_value : D
  -- the schema's default is 15
  pub due_days_offset : Option ℕ

pub record CreatePaymentPlanParams (D : Type 0) : Type 0 where
  pub code : ℕ
  pub name : ℕ
  pub project_id : Option ℕ
  pub milestones : List (CreatePaymentPlanMilestoneInput D)
  pub audit : AuditContext

-- One row for each call of `writeAuditLog`.
pub data PlanAudit (D : Type 0) : Type 0 where
  plan_created : (plan_id : ℕ) → PaymentPlan → (milestone_count : ℕ) → PlanAudit D
  milestone_created : (milestone_id : ℕ) → PaymentPlanMilestone D → PlanAudit D
  demand_schedule_created : (booking_id : ℕ) → List (ℕ × Demand D) → PlanAudit D
  demand_updated : (demand_id : ℕ) → (before after : Demand D) → (reason : Option ℕ) → PlanAudit D

pub record PlanStore (D : Type 0) : Type 0 where
  pub plans : Table PaymentPlan
  pub milestones : List (ℕ × PaymentPlanMilestone D)
  pub collections : Receipts.Store D
  pub audit_log : List (AuditContext × PlanAudit D)

-- What the transactions read and never write, the outcomes of `assertPermission` for an actor included.
pub record PlanCatalogue (D : Type 0) : Type 0 where
  pub receipts : Receipts.Catalogue D
  -- what the database makes of a percentage within the range of its column Decimal(7, 4)
  pub round_pct : D → D
  pub may_write_plans : (actor : ℕ) → (project_id : Option ℕ) → Bool
  pub may_raise : (actor project_id : ℕ) → Bool
  pub may_waive : (actor project_id : ℕ) → Bool

pub data PlanError : Type 0 where
  actor_required other_organisation not_permitted plan_not_found duplicate_plan_code : PlanError
  invalid_milestone_schedule duplicate_milestone_sequence duplicate_demand_sequence : PlanError
  booking_not_found demand_not_found waive_reason_required : PlanError
  demand_not_scheduled : DemandStatus → PlanError
  receipt_problem : ReceiptError → PlanError
