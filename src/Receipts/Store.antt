-- ===== src/Receipts/Store.antt =====
-- The rows that packages/services/src/receipts.ts reads and writes (packages/db/prisma/schema.prisma),
-- and its errors. The instrument and the bank of a receipt, and names, are left out; instants are
-- milliseconds, and identifiers and the names of triggers are numbers.
use desire_mlm_project.Base.{ℕ, Bool, Option, List}
use desire_mlm_project.Table.{Table}
use desire_mlm_project.Commission.Types.{ReleaseScheduleSlab}
use desire_mlm_project.Payouts.Store.{EntryStatus, AuditContext}

pub data ReceiptStatus : Type 0 where
  entered verified cleared bounced cancelled : ReceiptStatus

pub data DemandStatus : Type 0 where
  scheduled raised partially_paid paid overdue waived : DemandStatus

pub data PayoutMode : Type 0 where
  pro_rata_collection milestone on_booking : PayoutMode

pub record Receipt (D : Type 0) : Type 0 where
  pub org_id : ℕ
  pub booking_id : ℕ
  -- the number n of `RCPT-00000n`
  pub receipt_number : ℕ
  pub amount : D
  pub status : ReceiptStatus
  pub received_on : ℕ
  pub cleared_on : Option ℕ
  pub entered_by_id : ℕ
  pub verified_by_id : Option ℕ
  pub verified_at : Option ℕ

pub record ReceiptAllocation (D : Type 0) : Type 0 where
  pub receipt_id : ℕ
  pub demand_id : ℕ
  pub amount : D
  pub reversed_at : Option ℕ

pub record Demand (D : Type 0) : Type 0 where
  pub org_id : ℕ
  pub booking_id : ℕ
  pub sequence : ℕ
  pub milestone_ref : Option ℕ
  pub description : ℕ
  pub amount : D
  pub due_date : ℕ
  pub raised_at : Option ℕ
  pub status : DemandStatus
  pub waived_by_id : Option ℕ
  pub waived_at : Option ℕ
  pub waive_reason : Option ℕ

pub record Booking (D : Type 0) : Type 0 where
  pub org_id : ℕ
  pub project_id : ℕ
  pub selling_associate_id : ℕ
  pub agreement_value : D
  pub credit_balance : D
  pub payment_plan_id : Option ℕ

pub record EarnedEntry (D : Type 0) : Type 0 where
  pub booking_id : ℕ
  pub scheme_id : ℕ
  pub status : EntryStatus
  pub gross_amount : D

pub record CommissionRelease (D : Type 0) : Type 0 where
  pub entry_id : ℕ
  pub trigger_type : ℕ
  pub trigger_ref : ℕ
  pub cumulative_pct : D
  pub amount : D
  pub reversed_at : Option ℕ

pub record PayoutSchedule (D : Type 0) : Type 0 where
  pub mode : PayoutMode
  pub slabs : List (ReleaseScheduleSlab D)

-- One row for each call of `writeAuditLog`.
pub data ReceiptAudit (D : Type 0) : Type 0 where
  receipt_created : (receipt_id : ℕ) → ReceiptAudit D
  receipt_updated : (receipt_id : ℕ) → (before after : Receipt D) → ReceiptAudit D
  receipt_allocated :
      (receipt_id : ℕ) → List (ReceiptAllocation D) → (overflow_to_credit : D) → ReceiptAudit D

pub record Store (D : Type 0) : Type 0 where
  pub receipts : Table (Receipt D)
  pub allocations : List (ReceiptAllocation D)
  pub demands : Table (Demand D)
  pub bookings : Table (Booking D)
  pub entries : Table (EarnedEntry D)
  pub releases : List (CommissionRelease D)
  pub audit_log : List (AuditContext × ReceiptAudit D)

-- An `AssociateHierarchy` row: an associate and the associates above it.
pub record HierarchyPath : Type 0 where
  pub associate_id : ℕ
  pub path : List ℕ

-- What the transactions read and never write: the first schedule of a scheme, the associate of a user,
-- the current placement of an associate, and the outcomes of `assertPermission`
-- (packages/services/src/rbac.ts) for an actor and a project.
pub record Catalogue (D : Type 0) : Type 0 where
  pub schedule : ℕ → Option (PayoutSchedule D)
  pub associate_of_user : ℕ → Option ℕ
  pub current_placement : ℕ → Option HierarchyPath
  pub may_enter : (actor project_id : ℕ) → Bool
  pub may_verify : (actor project_id : ℕ) → Bool

pub data ReceiptError : Type 0 where
  actor_required other_organisation not_permitted booking_not_found receipt_not_found : ReceiptError
  receipt_number_conflict same_enterer_verifier seller_or_upline_verify : ReceiptError
  allocation_exceeds_receipt demand_not_found duplicate_release : ReceiptError
  invalid_receipt_state : ReceiptStatus → ReceiptError
  demand_not_raised : DemandStatus → ReceiptError
  allocation_exceeds_demand : (demand_id : ℕ) → ReceiptError
