-- ===== src/Commission/Types.antt =====
-- packages/commission/src/types.ts. Identifiers, codes and ISO dates are only compared, so they are
-- numbers (dates of one ISO format compare like the instants that they name). A `Map` is its `get`.
use desire_mlm_project.Base.{ℕ, List, Option}

pub data RateType : Type 0 where
  pct_of_base per_sqft flat : RateType

pub data CompressionMode : Type 0 where
  none_mode roll_up : CompressionMode

pub data CommissionRole : Type 0 where
  self override : CommissionRole

-- `status: string`, which is read only to compare it with "ACTIVE".
pub data AssociateStatus : Type 0 where
  active : AssociateStatus
  other_status : ℕ → AssociateStatus

pub record GradeRate (D : Type 0) : Type 0 where
  pub grade_code : ℕ
  pub rate_type : RateType
  pub rate_value : D

pub record LevelRate (D : Type 0) : Type 0 where
  pub level : ℕ
  pub pct_of_seller_commission : D

-- `eligibilityRules?.minGradeRank`, the one rule that the engine reads.
pub record SchemeConfig (D : Type 0) : Type 0 where
  pub scheme_id : ℕ
  pub scheme_version : ℕ
  pub max_level : ℕ
  pub compression_mode : CompressionMode
  pub max_total_pct : D
  pub grade_rates : List (GradeRate D)
  pub level_rates : List (LevelRate D)
  pub min_grade_rank : Option ℕ

pub record GradeAssignmentRecord : Type 0 where
  pub grade_code : ℕ
  pub grade_rank : ℕ
  pub valid_from : ℕ
  pub valid_to : Option ℕ

pub record HierarchyAssignmentRecord : Type 0 where
  pub parent_associate_id : Option ℕ
  pub valid_from : ℕ
  pub valid_to : Option ℕ

pub record AssociateSnapshot : Type 0 where
  pub associate_id : ℕ
  pub code : ℕ
  pub status : AssociateStatus

pub record OrgSnapshot : Type 0 where
  pub hierarchy_history : ℕ → Option (List HierarchyAssignmentRecord)
  pub grade_history : ℕ → Option (List GradeAssignmentRecord)
  pub associates : ℕ → Option AssociateSnapshot

pub record ResolvedUplineNode : Type 0 where
  pub level : ℕ
  pub associate_id : ℕ
  pub code : ℕ
  pub grade_code : ℕ
  pub grade_rank : ℕ
  pub status : AssociateStatus

pub record AccrualInput (D : Type 0) : Type 0 where
  pub booking_id : ℕ
  pub booking_date : ℕ
  pub commissionable_value : D
  pub saleable_area_at_booking : D
  pub scheme : SchemeConfig D
  pub seller_associate_id : ℕ
  pub computed_at : ℕ

pub record ChainLink : Type 0 where
  pub level : ℕ
  pub associate_id : ℕ
  pub code : ℕ
  pub grade_code : ℕ

-- The amounts stand here as numbers, not as the texts that `toString` makes of them.
pub record CommissionEntrySnapshot (D : Type 0) : Type 0 where
  pub grade_code : ℕ
  pub grade_rank : ℕ
  pub rate_type : RateType
  pub rate_value : D
  pub seller_commission : D
  pub level_pct : Option D
  pub upline_chain : List ChainLink
  pub scheme_version : ℕ
  pub compression_mode : CompressionMode
  pub computed_at : ℕ

-- `${bookingId}:${associateId}:${level}:${schemeId}`
pub record IdempotencyKey : Type 0 where
  pub key_booking : ℕ
  pub key_associate : ℕ
  pub key_level : ℕ
  pub key_scheme : ℕ

pub record CommissionEntryResult (D : Type 0) : Type 0 where
  pub booking_id : ℕ
  pub scheme_id : ℕ
  pub beneficiary_associate_id : ℕ
  pub role : CommissionRole
  pub level : ℕ
  pub base_amount : D
  pub gross_amount : D
  pub snapshot : CommissionEntrySnapshot D
  pub idempotency_key : IdempotencyKey

pub record AccrualResult (D : Type 0) : Type 0 where
  pub entries : List (CommissionEntryResult D)
  pub breakage : D

pub record ReleaseScheduleSlab (D : Type 0) : Type 0 where
  pub sequence : ℕ
  pub trigger_type : ℕ
  pub trigger_ref : Option ℕ
  pub release_pct : D

pub record ReleaseComputationInput (D : Type 0) : Type 0 where
  pub entry_gross_amount : D
  pub entry_already_released : D
  pub cumulative_release_pct : D

pub record ClawbackInput (D : Type 0) : Type 0 where
  pub released_total : D
  pub beneficiary_pending_payable : D

pub record ClawbackResult (D : Type 0) : Type 0 where
  pub contra_amount : D
  pub netted_against_pending : D
  pub recovery_amount : D
