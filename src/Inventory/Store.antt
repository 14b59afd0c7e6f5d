-- ===== src/Inventory/Store.antt =====
-- The rows of the database that packages/services/src/holds.ts reads and writes
-- (packages/db/prisma/schema.prisma), and its errors. Names, labels and request metadata that are only
-- copied into a row or a message are left out; instants are milliseconds.
use desire_mlm_project.Base.{ℕ, Bool, true, false, Option, none, some, List}
use desire_mlm_project.Table.{Table}
use desire_mlm_project.Inventory.Transitions.{UnitStatus, InvalidTransition}

pub data ReleaseReason : Type 0 where
  expired released_by_associate released_by_admin converted_to_booking unit_blocked : ReleaseReason

pub record InventoryUnit : Type 0 where
  pub status : UnitStatus
  pub project_id : ℕ
  pub current_hold_id : Option ℕ

pub record UnitHold : Type 0 where
  pub org_id : ℕ
  pub unit_id : ℕ
  pub associate_id : ℕ
  pub lead_id : Option ℕ
  pub expires_at : ℕ
  pub extension_count : ℕ
  pub released_at : Option ℕ
  pub release_reason : Option ReleaseReason
  pub released_by_id : Option ℕ

-- The texts that the code writes as `reason`.
pub data HistoryReason : Type 0 where
  hold_acquired expired_on_acquire expired_by_sweep : HistoryReason
  noted : ℕ → HistoryReason
  by_reason : ReleaseReason → HistoryReason

pub record HistoryRow : Type 0 where
  pub unit_id : ℕ
  pub from_status : UnitStatus
  pub to_status : UnitStatus
  pub reason : HistoryReason
  pub actor_id : Option ℕ

pub record AuditContext : Type 0 where
  pub org_id : ℕ
  pub actor_id : Option ℕ

-- One audit row for each call of `writeAuditLog`, with its `before` and `after`.
pub data HoldAudit : Type 0 where
  hold_created : (hold_id unit_id associate_id expires_at : ℕ) → HoldAudit
  hold_released : (hold_id released_at : ℕ) → ReleaseReason → (note : Option ℕ) → HoldAudit
  hold_extended : (hold_id old_expiry old_count new_expiry new_count : ℕ) → HoldAudit

pub record Store : Type 0 where
  pub units : Table InventoryUnit
  pub holds : Table UnitHold
  pub history : List HistoryRow
  pub audit_log : List (AuditContext × HoldAudit)

pub record Project : Type 0 where
  pub hold_ttl_minutes : ℕ
  pub hold_extension_minutes : ℕ
  pub max_hold_extensions : ℕ

pub record PriceList : Type 0 where
  pub project_id : ℕ
  pub is_active : Bool
  pub valid_from : ℕ
  pub valid_to : Option ℕ

-- What the transactions read and never write: projects, price lists, and the hold quota of the grade
-- that an associate holds now.
pub record Catalogue : Type 0 where
  pub projects : ℕ → Option Project
  pub price_lists : List PriceList
  pub grade_quota : ℕ → Option ℕ

pub data HoldError : Type 0 where
  unit_not_found project_not_found no_active_price_list note_required hold_not_found : HoldError
  unit_not_available : UnitStatus → (held_by : Option ℕ) → HoldError
  hold_quota_exceeded : (associate_id quota live_holds : ℕ) → HoldError
  hold_extension_limit : ℕ → HoldError
  illegal_transition : InvalidTransition → HoldError

abbrev pub is_null : {A : Type 0} → Option A → Bool
is_null none = true
is_null (some _) = false
