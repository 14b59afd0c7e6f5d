-- ===== src/Bookings/Store.antt =====
-- The rows that `confirmBooking` of packages/services/src/bookings.ts reads and writes
-- (packages/db/prisma/schema.prisma), over those of holds.ts, payment-plans.ts and commission.ts, and its
-- errors. The agreement value of a booking stands in the row that payment-plans.ts and receipts.ts read.
use desire_mlm_project.Base.{ℕ, Bool, Option, List}
use desire_mlm_project.Table.{Table}
use desire_mlm_project.Inventory.Transitions.{InvalidTransition}
use desire_mlm_project.Inventory.Store as Inventory
use desire_mlm_project.Payouts.Store.{AuditContext}
use desire_mlm_project.CostSheet.Types.{CostSheetInput, CostSheetLine, CostSheetError}
use desire_mlm_project.PaymentPlans.Store.{PlanStore, PlanError}
use desire_mlm_project.Ledger.Store.{LedgerStore, LedgerCatalogue, LedgerError}

pub data BookingStatus : Type 0 where
  draft pending_approval confirmed agreement_signed registered : BookingStatus
  possession_given cancelled : BookingStatus

pub record BookingRow (D : Type 0) : Type 0 where
  pub org_id : ℕ
  pub project_id : ℕ
  pub unit_id : ℕ
  pub booking_number : ℕ
  pub booking_date : ℕ
  pub status : BookingStatus
  pub selling_associate_id : ℕ
  pub price_list_id : ℕ
  pub base_amount : D
  pub plc_amount : D
  pub other_charges_amount : D
  pub discount_amount : D
  pub stamp_duty_amount : D
  pub registration_amount : D
  pub commissionable_value : D
  pub price_override : Option D
  pub saleable_area_at_booking : D
  pub confirmed_at : Option ℕ
  pub confirmed_by_id : Option ℕ

pub record BookingHistory : Type 0 where
  pub booking_id : ℕ
  pub from_status : BookingStatus
  pub to_status : BookingStatus
  pub actor_id : Option ℕ

-- The row of `writeAuditLog`, with `before` and `after`.
pub data BookingAudit (D : Type 0) : Type 0 where
  booking_confirmed :
      (booking_id : ℕ) → (before after : BookingRow D) → (line_count : ℕ) → BookingAudit D

pub record BookingStore (D : Type 0) : Type 0 where
  pub bookings : Table (BookingRow D)
  pub inventory : Inventory.Store
  pub plans : PlanStore D
  pub ledger : LedgerStore D
  -- the lines, with the booking that they belong to
  pub cost_sheet_lines : List (ℕ × CostSheetLine D)
  pub history : List BookingHistory
  pub audit_log : List (AuditContext × BookingAudit D)

-- What the transaction reads and never writes: what `buildCostSheetInput` reads of a unit and a price
-- list, the commission's catalogue, and the outcome of `assertPermission`.
pub record BookingCatalogue (D : Type 0) : Type 0 where
  pub pricing : (org_id unit_id price_list_id : ℕ) → Option (CostSheetInput D)
  pub ledger : LedgerCatalogue D
  pub may_confirm : (actor project_id : ℕ) → Bool

pub data BookingError : Type 0 where
  actor_required other_organisation not_permitted booking_not_found unit_not_found : BookingError
  unit_not_held invalid_price_list : BookingError
  invalid_booking_state : BookingStatus → BookingError
  held_by_another : (holder seller : ℕ) → BookingError
  cost_sheet_problem : CostSheetError → BookingError
  plan_problem : PlanError → BookingError
  ledger_problem : LedgerError → BookingError
  illegal_transition : InvalidTransition → BookingError
