-- ===== src/CostSheet/Tests.antt =====
-- A unit of 1,200.00 square feet at 5,000.00, a corner of 2 per cent, a stamp duty of 300,000.00.
use desire_mlm_project.Base.{
  ℕ, ◌≡◌, refl, true, false, Option, none, some, List, [], ◌∷◌, ok, err, Result, ◌==◌,
  if◌then◌else◌,
}
use desire_mlm_project.Paise.{ℤ, pos, paise_decimal, paise_exact}
use desire_mlm_project.CostSheet.Types.{
  ChargeHeadSpec, CostSheetInput, CostSheetResult, CostSheetError, PlcCharge, base_price, plc,
  stamp_duty, pct_of_base,
}
use desire_mlm_project.CostSheet.Compute.{compute_cost_sheet}
use desire_mlm_project.CostSheet.Totals.{total_amount}
use desire_mlm_project.CostSheet.Reconcile.{compute_cost_sheet_reconciles}
use desire_mlm_project.CostSheet.Commissionable.{compute_cost_sheet_ignores_discount}
use desire_mlm_project.CostSheet.Refusals.{compute_cost_sheet_refuses_unpriced}

abbrev base_head : ChargeHeadSpec
base_head = record {
  code = 1;
  name = 11;
  category = base_price;
  counts_toward_commission = true;
  display_order = 1;
}

abbrev plc_head : ChargeHeadSpec
plc_head = record {
  code = 2;
  name = 12;
  category = plc;
  counts_toward_commission = true;
  display_order = 2;
}

abbrev duty_head : ChargeHeadSpec
duty_head = record {
  code = 3;
  name = 13;
  category = stamp_duty;
  counts_toward_commission = false;
  display_order = 9;
}

abbrev corner : ℕ → Option (PlcCharge ℤ)
corner tag = if tag == 7 then some (record { basis = pct_of_base; value = pos 200 }) else none

abbrev unit_of : List ℕ → ℤ → CostSheetInput ℤ
unit_of tags discount = record {
  saleable_area = pos 120_000;
  carpet_area = some (pos 80_000);
  base_rate = pos 500_000;
  plc_tags = tags;
  plc_charges_by_tag = corner;
  other_charges = record { charge_head_code = 3; amount = pos 30_000_000 } ∷ [];
  discount = discount;
  charge_heads = base_head ∷ plc_head ∷ duty_head ∷ [];
  price_override = none;
}

abbrev sheet_or : CostSheetResult ℤ → Result CostSheetError (CostSheetResult ℤ) → CostSheetResult ℤ
sheet_or other (ok sheet) = sheet
sheet_or other (err _) = other

abbrev no_sheet : CostSheetResult ℤ
no_sheet = record {
  lines = [];
  saleable_area = pos 0;
  carpet_area = none;
  base_amount = pos 0;
  plc_amount = pos 0;
  other_charges_amount = pos 0;
  discount_amount = pos 0;
  stamp_duty_amount = pos 0;
  registration_amount = pos 0;
  agreement_value = pos 0;
  commissionable_value = pos 0;
}

unfoldable corner_sheet : ℤ → CostSheetResult ℤ
unfolding compute_cost_sheet
corner_sheet discount = sheet_or no_sheet (compute_cost_sheet (unit_of (7 ∷ []) discount))

corner_sheet_lem :
    ((corner_sheet (pos 0)).agreement_value ≡ pos 642_000_000)
    × ((corner_sheet (pos 5_000_000)).agreement_value ≡ pos 637_000_000)
    × ((corner_sheet (pos 5_000_000)).commissionable_value ≡ pos 612_000_000)
unfolding corner_sheet
corner_sheet_lem = (refl, refl, refl)

-- The unit with the corner's charge and a discount of 50,000.00.
compute_cost_sheet_reconciles_example :
    total_amount (corner_sheet (pos 5_000_000)).lines
    ≡ (corner_sheet (pos 5_000_000)).agreement_value
unfolding corner_sheet
compute_cost_sheet_reconciles_example =
    compute_cost_sheet_reconciles (unit_of (7 ∷ []) (pos 5_000_000)) (corner_sheet (pos 5_000_000))
      refl

compute_cost_sheet_ignores_discount_example :
    (corner_sheet (pos 0)).commissionable_value
    ≡ (corner_sheet (pos 5_000_000)).commissionable_value
unfolding corner_sheet
compute_cost_sheet_ignores_discount_example =
    compute_cost_sheet_ignores_discount (unit_of (7 ∷ []) (pos 0)) (pos 5_000_000)
      (corner_sheet (pos 0)) (corner_sheet (pos 5_000_000)) refl refl refl

-- Tag 8 has no charge.
compute_cost_sheet_refuses_unpriced_example :
    (problem : CostSheetError) × (compute_cost_sheet (unit_of (7 ∷ 8 ∷ []) (pos 0)) ≡ err problem)
compute_cost_sheet_refuses_unpriced_example =
    compute_cost_sheet_refuses_unpriced (unit_of (7 ∷ 8 ∷ []) (pos 0)) refl refl
