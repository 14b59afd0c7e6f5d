-- ===== src/Payouts/Store.antt =====
-- The rows that packages/services/src/payouts.ts reads and writes (packages/db/prisma/schema.prisma), and
-- its errors. Bank details, which a line copies from its associate, and names are left out; instants
-- are milliseconds.
use desire_mlm_project.Base.{ℕ, Bool, Option, List}
use desire_mlm_project.Table.{Table}
use desire_mlm_project.Tax.{EngagementType, TaxSection, TaxRateInput}

pub data BatchStatus : Type 0 where
  draft pending_approval approved exported paid_out cancelled : BatchStatus

pub data EntryStatus : Type 0 where
  accrued payable on_hold paid reversed : EntryStatus

pub data RecoveryStatus : Type 0 where
  outstanding partially_recovered recovered written_off : RecoveryStatus

pub record CommissionEntry (D : Type 0) : Type 0 where
  pub org_id : ℕ
  pub beneficiary_associate_id : ℕ
  pub status : EntryStatus
  pub gross_amount : D
  pub accrued_at : ℕ
  pub paid_at : Option ℕ

pub record Recovery (D : Type 0) : Type 0 where
  pub org_id : ℕ
  pub associate_id : ℕ
  pub recovered_amount : D
  pub outstanding_amount : D
  pub status : RecoveryStatus
  pub written_off_by_id : Option ℕ
  pub written_off_at : Option ℕ

pub record PayoutBatch (D : Type 0) : Type 0 where
  pub org_id : ℕ
  -- the number n of `PB-00000n`
  pub batch_number : ℕ
  pub period_start : ℕ
  pub period_end : ℕ
  pub status : BatchStatus
  pub prepared_by_id : ℕ
  pub approved_by_id : Option ℕ
  pub approved_at : Option ℕ
  pub exported_at : Option ℕ
  pub total_gross : D
  pub total_tds : D
  pub total_recovery : D
  pub total_net_payable : D

-- A line, with its `PayoutLineEntry` rows: the entries and the amounts that they are paid with.
pub record PayoutLine (D : Type 0) : Type 0 where
  pub batch_id : ℕ
  pub associate_id : ℕ
  pub gross_amount : D
  pub tds_section : TaxSection
  pub tds_rate_pct : D
  pub tds_amount : D
  pub recovery_adjustment : D
  pub net_payable : D
  pub line_entries : List (ℕ × D)

pub record AuditContext : Type 0 where
  pub org_id : ℕ
  pub actor_id : Option ℕ

-- One row for each call of `writeAuditLog`.
pub data PayoutAudit (D : Type 0) : Type 0 where
  batch_created : (batch_id batch_number line_count : ℕ) → (total_net_payable : D) → PayoutAudit D
  batch_approved : (batch_id approved_by : ℕ) → PayoutAudit D
  bank_account_viewed : (associate_id batch_number : ℕ) → PayoutAudit D
  batch_exported : (batch_id bank_file_lines payroll_lines : ℕ) → PayoutAudit D
  recovery_written_off :
      (recovery_id : ℕ) → RecoveryStatus → (outstanding_before : D) → (reason : ℕ) → PayoutAudit D

pub record Store (D : Type 0) : Type 0 where
  pub entries : Table (CommissionEntry D)
  pub recoveries : Table (Recovery D)
  pub batches : Table (PayoutBatch D)
  pub lines : List (PayoutLine D)
  pub audit_log : List (AuditContext × PayoutAudit D)

pub record TaxRate (D : Type 0) : Type 0 where
  pub org_id : ℕ
  pub section : TaxSection
  pub valid_from : ℕ
  pub valid_to : Option ℕ
  pub rates : TaxRateInput D

pub record Beneficiary : Type 0 where
  pub engagement_type : EngagementType
  pub has_pan : Bool
  pub has_bank_account : Bool

pub data Permission : Type 0 where
  payout_prepare payout_approve payout_export recovery_write_off : Permission

-- What the transactions read and never write: the tax rates, the associates, and the outcome of
-- `assertPermission` (packages/services/src/rbac.ts).
pub record Catalogue (D : Type 0) : Type 0 where
  pub tax_rates : List (TaxRate D)
  pub beneficiary : ℕ → Beneficiary
  pub permitted : ℕ → Permission → Bool

pub data PayoutError : Type 0 where
  actor_required not_permitted other_organisation batch_not_found duplicate_period : PayoutError
  batch_number_conflict maker_checker_violation recovery_not_found : PayoutError
  no_tax_rate : TaxSection → PayoutError
  not_approvable not_exportable : BatchStatus → PayoutError
  already_resolved : RecoveryStatus → PayoutError
  period_open : ℕ → PayoutError
