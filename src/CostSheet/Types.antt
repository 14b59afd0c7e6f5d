-- ===== src/CostSheet/Types.antt =====
-- packages/services/src/cost-sheet.ts: the input, the lines and the errors. Codes, names and tags are
-- numbers; a record keyed by tag is its lookup. A display order is not negative.
use desire_mlm_project.Base.{ℕ, Bool, Option, List}

pub data ChargeCategory : Type 0 where
  base_price plc parking club_membership ifms electricity_water power_backup : ChargeCategory
  legal_documentation stamp_duty registration other : ChargeCategory

pub data PlcChargeBasis : Type 0 where
  per_area pct_of_base : PlcChargeBasis

pub record PlcCharge (D : Type 0) : Type 0 where
  pub basis : PlcChargeBasis
  pub value : D

pub record ChargeHeadSpec : Type 0 where
  pub code : ℕ
  pub name : ℕ
  pub category : ChargeCategory
  pub counts_toward_commission : Bool
  pub display_order : ℕ

pub record FixedChargeInput (D : Type 0) : Type 0 where
  pub charge_head_code : ℕ
  pub amount : D

pub record CostSheetInput (D : Type 0) : Type 0 where
  pub saleable_area : D
  pub carpet_area : Option D
  pub base_rate : D
  pub plc_tags : List ℕ
  pub plc_charges_by_tag : ℕ → Option (PlcCharge D)
  pub other_charges : List (FixedChargeInput D)
  pub discount : D
  pub charge_heads : List ChargeHeadSpec
  pub price_override : Option D

-- What the text of a line is made of.
pub data Description (D : Type 0) : Type 0 where
  agreed_price discount_given : Description D
  head_name : (name : ℕ) → Description D
  tag_name : (name tag : ℕ) → Description D
  tag_percentage : (name tag : ℕ) → (value : D) → Description D

pub data LineCode : Type 0 where
  discount_line : LineCode
  head_code : ℕ → LineCode

pub record CostSheetLine (D : Type 0) : Type 0 where
  pub charge_head_code : LineCode
  pub description : Description D
  pub quantity : Option D
  pub rate : Option D
  pub amount : D
  pub counts_toward_commission : Bool
  pub display_order : ℕ

pub record CostSheetResult (D : Type 0) : Type 0 where
  pub lines : List (CostSheetLine D)
  pub saleable_area : D
  pub carpet_area : Option D
  pub base_amount : D
  pub plc_amount : D
  pub other_charges_amount : D
  pub discount_amount : D
  pub stamp_duty_amount : D
  pub registration_amount : D
  pub agreement_value : D
  pub commissionable_value : D

pub data CostSheetError : Type 0 where
  saleable_area_not_positive carpet_area_not_positive areas_swapped : CostSheetError
  negative_base_rate agreed_price_out_of_range discount_with_agreed_price : CostSheetError
  negative_discount : CostSheetError
  no_head_of_category : ChargeCategory → CostSheetError
  ambiguous_category : (code : ℕ) → CostSheetError
  head_not_configured : (code : ℕ) → CostSheetError
  computed_category_charged : (code : ℕ) → CostSheetError
  unpriced_plc_tag : (tag : ℕ) → CostSheetError
