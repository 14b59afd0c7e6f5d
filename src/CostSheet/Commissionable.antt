-- ===== src/CostSheet/Commissionable.antt =====
-- packages/services/src/cost-sheet.ts: what commission is paid on, with and without a discount.
use mathlib.Core.Path.{fun_ext}
use desire_mlm_project.Base.{
  ℕ, ◌≡◌, refl, sym, ap, ◌∙◌, none, List, [], ◌∷◌, inl, inr, Bool-cases, Result, ok, ◌>>=◌,
  >>=-eq-ok, >>-eq_ok, throw_if->>-eq_ok, ok-injective, or_throw,
}
use desire_mlm_project.Decimal.{Decimal, IsExact}
use desire_mlm_project.Decimal.Laws.{plus_zero}
use desire_mlm_project.CostSheet.Totals.{
  commissionable_of, total_of, total_of-append, total_of-sort_by, sum_commissionable_lem,
}
use desire_mlm_project.CostSheet.Types.{
  ChargeHeadSpec, CostSheetInput, CostSheetLine, CostSheetResult, CostSheetError, base_price,
  negative_discount, plc, unpriced_plc_tag,
}
use desire_mlm_project.CostSheet.Compute.{
  Draft, compute_cost_sheet, price_unit, price_from_list, finish_sheet, price_plc, price_charges,
  base_line, first_draft, discount_lines, require_head_by_category, assert_areas_and_rate,
  price_tags, add_plc_line, plc_line,
}

module _ {D : Type 0} ⦃d : Decimal D⦄ where
  open d use {zero as nought, plus, mul, to_decimal_places2, is_zero, is_negative}

  pub compute_cost_sheet-eq_ok :
      (input : CostSheetInput D) {sheet : CostSheetResult D}
      → compute_cost_sheet input ≡ ok sheet
      → (head : ChargeHeadSpec) × (require_head_by_category input.charge_heads base_price ≡ ok head)
        × (price_unit input head input.price_override ≡ ok sheet)
  unfolding compute_cost_sheet
  compute_cost_sheet-eq_ok input e =
      >>=-eq-ok (require_head_by_category input.charge_heads base_price) _
        (>>-eq_ok (assert_areas_and_rate input) _ e).1

  module _ ⦃x : IsExact D⦄ where
    total_of-discount_lines :
        (discount : D) (lines : List (CostSheetLine D))
        → total_of commissionable_of (discount_lines discount lines)
          ≡ total_of commissionable_of lines
    total_of-discount_lines discount lines = elim (Bool-cases (is_zero discount)) [
      | inl none_given ↦ rw none_given refl
      | inr given ↦ rw given (total_of-append commissionable_of lines _ ∙ plus_zero _)
    ]

    finish_sheet-commissionable_value :
        (input : CostSheetInput D) (base_amount discount : D) (draft : Draft D)
        → (finish_sheet input base_amount discount draft).commissionable_value
          ≡ plus nought (total_of commissionable_of draft.lines)
    unfolding finish_sheet
    finish_sheet-commissionable_value input base_amount discount draft =
        sum_commissionable_lem nought _
        ∙ ap (plus nought) (
            total_of-sort_by commissionable_of _ (discount_lines discount draft.lines)
            ∙ total_of-discount_lines discount draft.lines)

    price_tags-ignores_discount :
        (input : CostSheetInput D) (discount : D) (head : ChargeHeadSpec) (base_amount : D)
        (tags : List ℕ) (draft : Draft D)
        → price_tags (record input { discount = discount }) head base_amount tags draft
          ≡ price_tags input head base_amount tags draft
    unfolding price_tags
    price_tags-ignores_discount input discount head base_amount [] draft = refl
    price_tags-ignores_discount input discount head base_amount (tag ∷ tags) draft =
        ap (λ next. or_throw (input.plc_charges_by_tag tag) (unpriced_plc_tag tag) >>= next)
          (fun_ext λ charge.
            price_tags-ignores_discount input discount head base_amount tags
              (add_plc_line (plc_line input head base_amount tag charge) draft))

    price_plc-ignores_discount :
        (input : CostSheetInput D) (discount base_amount : D) (tags : List ℕ) (draft : Draft D)
        → price_plc (record input { discount = discount }) base_amount tags draft
          ≡ price_plc input base_amount tags draft
    unfolding price_plc
    price_plc-ignores_discount input discount base_amount [] draft = refl
    price_plc-ignores_discount input discount base_amount (tag ∷ tags) draft =
        ap (λ next. require_head_by_category input.charge_heads plc >>= next)
          (fun_ext
            λ head. price_tags-ignores_discount input discount head base_amount (tag ∷ tags) draft)

    -- The lines before the discount.
    abbrev list_draft : CostSheetInput D → ChargeHeadSpec → Result CostSheetError (Draft D)
    list_draft input head =
        let base_amount = to_decimal_places2 (mul input.saleable_area input.base_rate) in
        price_plc input base_amount input.plc_tags (first_draft (base_line input head base_amount))
        >>= price_charges input.charge_heads input.other_charges

    price_from_list-eq_ok :
        (input : CostSheetInput D) (head : ChargeHeadSpec) {sheet : CostSheetResult D}
        → price_from_list input head ≡ ok sheet
        → (draft : Draft D) × (list_draft input head ≡ ok draft)
          × (sheet.commissionable_value ≡ plus nought (total_of commissionable_of draft.lines))
    unfolding price_from_list
    price_from_list-eq_ok input head {sheet} e =
        let base_amount = to_decimal_places2 (mul input.saleable_area input.base_rate) in
        let discount = to_decimal_places2 input.discount in
        let first = first_draft (base_line input head base_amount) in
        let (with_plc, priced, charging) =
          >>=-eq-ok (price_plc input base_amount input.plc_tags first) _ e in
        let (draft, charged, finishing) =
          >>=-eq-ok (price_charges input.charge_heads input.other_charges with_plc) _ charging in
        let (_, finished) =
          throw_if->>-eq_ok (is_negative discount) negative_discount
            (ok (finish_sheet input base_amount discount draft)) finishing in
        (
          draft,
          ap (λ m. m >>= price_charges input.charge_heads input.other_charges) priced ∙ charged,
          sym (ap (λ s. s.commissionable_value) (ok-injective finished))
              ∙ finish_sheet-commissionable_value input base_amount discount draft,
        )

    price_from_list-commissionable_value :
        (input : CostSheetInput D) (discount : D) (head : ChargeHeadSpec)
        {sheet other : CostSheetResult D}
        → price_from_list input head ≡ ok sheet
        → price_from_list (record input { discount = discount }) head ≡ ok other
        → sheet.commissionable_value ≡ other.commissionable_value
    price_from_list-commissionable_value input discount head e e' =
        let (draft, drafted, value) = price_from_list-eq_ok input head e in
        let (draft', drafted', value') =
          price_from_list-eq_ok (record input { discount = discount }) head e' in
        let base_amount = to_decimal_places2 (mul input.saleable_area input.base_rate) in
        let same =
          ap (λ m. m >>= price_charges input.charge_heads input.other_charges)
            (price_plc-ignores_discount input discount base_amount input.plc_tags
              (first_draft (base_line input head base_amount))) in
        value
        ∙ ap (λ t. plus nought (total_of commissionable_of t.lines))
            (ok-injective (sym drafted ∙ sym same ∙ drafted'))
        ∙ sym value'

    -- Two sheets of one unit that differ in the discount alone, the price taken from the list, pay
    -- commission on the same value.
    pub compute_cost_sheet_ignores_discount :
        (input : CostSheetInput D) (discount : D) (sheet other : CostSheetResult D)
        → input.price_override ≡ none
        → compute_cost_sheet input ≡ ok sheet
        → compute_cost_sheet (record input { discount = discount }) ≡ ok other
        → sheet.commissionable_value ≡ other.commissionable_value
    compute_cost_sheet_ignores_discount input discount sheet other listed e e' =
        let discounted = record input { discount = discount } in
        let (head, found, priced) = compute_cost_sheet-eq_ok input e in
        let (head', found', priced') = compute_cost_sheet-eq_ok discounted e' in
        price_from_list-commissionable_value input discount head
          (ap (price_unit input head) (sym listed) ∙ priced)
          (ap (price_unit discounted head) (sym listed)
            ∙ ap (λ h. price_unit discounted h input.price_override)
                (ok-injective (sym found ∙ found'))
            ∙ priced')
