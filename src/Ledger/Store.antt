-- ===== src/Ledger/Store.antt =====
-- The rows that packages/services/src/commission.ts reads and writes (packages/db/prisma/schema.prisma), and
-- its errors. Texts are numbers; the snapshot of an entry is left out.
use desire_mlm_project.Base.{ℕ, Bool, Option, List}
use desire_mlm_project.Table.{Table}
use desire_mlm_project.Commission.Types.{CommissionRole, SchemeConfig, OrgSnapshot, IdempotencyKey}
use desire_mlm_project.Commission.Accrue.{Misconfigured}
use desire_mlm_project.Payouts.Store.{EntryStatus, AuditContext}
use desire_mlm_project.Receipts.Store.{PayoutMode, CommissionRelease, HierarchyPath}

-- The codes of the roles that the service names.
pub data RoleCode : Type 0 where
  super_admin finance_admin sales_head auditor team_lead : RoleCode
  other_role : ℕ → RoleCode

pub data ApprovalStatus : Type 0 where
  pending approved rejected withdrawn : ApprovalStatus

pub data AdjustmentType : Type 0 where
  credit debit opening_balance : AdjustmentType

-- `ResolveDisputeParams.resolution`
pub data Resolution : Type 0 where
  upheld dismissed : Resolution

pub record LedgerEntry (D : Type 0) : Type 0 where
  pub org_id : ℕ
  pub booking_id : ℕ
  pub scheme_id : ℕ
  pub beneficiary_associate_id : ℕ
  pub role : CommissionRole
  pub level : ℕ
  pub base_amount : D
  pub gross_amount : D
  pub status : EntryStatus
  pub idempotency_key : IdempotencyKey
  pub accrued_at : ℕ
  pub paid_at : Option ℕ

pub record CommissionDispute : Type 0 where
  pub org_id : ℕ
  pub entry_id : ℕ
  pub raised_by_id : ℕ
  pub description : ℕ
  pub status : ApprovalStatus
  pub resolved_by_id : Option ℕ
  pub resolved_at : Option ℕ
  pub adjustment_id : Option ℕ

pub record Adjustment (D : Type 0) : Type 0 where
  pub org_id : ℕ
  pub associate_id : ℕ
  pub type : AdjustmentType
  pub amount : D
  pub requested_by_id : ℕ
  pub approved_by_id : ℕ
  pub approved_at : ℕ

-- One row for each call of `writeAuditLog`.
pub data LedgerAudit (D : Type 0) : Type 0 where
  entry_created : (entry_id : ℕ) → LedgerEntry D → LedgerAudit D
  commission_accrued : (booking_id scheme_id entry_count : ℕ) → (breakage : D) → LedgerAudit D
  dispute_created : (dispute_id entry_id description : ℕ) → LedgerAudit D
  dispute_resolved : (dispute_id : ℕ) → Resolution → (adjustment_id : Option ℕ) → LedgerAudit D

pub record LedgerStore (D : Type 0) : Type 0 where
  pub entries : Table (LedgerEntry D)
  pub releases : List (CommissionRelease D)
  pub disputes : Table CommissionDispute
  pub adjustments : Table (Adjustment D)
  pub audit_log : List (AuditContext × LedgerAudit D)

-- The booking, as the accrual reads it.
pub record SoldBooking (D : Type 0) : Type 0 where
  pub org_id : ℕ
  pub project_id : ℕ
  pub booking_date : ℕ
  pub commissionable_value : D
  pub saleable_area_at_booking : D
  pub selling_associate_id : ℕ

-- What the transactions read and never write: bookings, the scheme that `getActiveScheme` finds with the
-- mode of its first schedule, the history of the organisation, the roles of a user, current placements,
-- and the outcomes of `assertPermission`.
pub record LedgerCatalogue (D : Type 0) : Type 0 where
  pub booking : ℕ → Option (SoldBooking D)
  pub active_scheme : (project_id as_of : ℕ) → Option (SchemeConfig D × Option PayoutMode)
  pub org_snapshot : (org_id : ℕ) → OrgSnapshot
  pub role_codes : (actor : ℕ) → List RoleCode
  pub associate_of_user : ℕ → Option ℕ
  pub placements : List HierarchyPath
  pub may_read : (actor : ℕ) → Bool
  pub may_resolve : (actor : ℕ) → Bool

pub data LedgerError : Type 0 where
  actor_required other_organisation not_permitted no_associate_profile out_of_scope : LedgerError
  booking_not_found entry_not_found dispute_not_found duplicate_accrual : LedgerError
  duplicate_dispute : LedgerError
  dispute_already_resolved : ApprovalStatus → LedgerError
  misconfigured : Misconfigured → LedgerError
