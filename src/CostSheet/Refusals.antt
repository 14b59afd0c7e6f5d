-- ===== src/CostSheet/Refusals.antt =====
-- packages/services/src/cost-sheet.ts: a sheet priced from the list that would leave out a charge.
use desire_mlm_project.Base.{
  ℕ, ◌≡◌, refl, sym, ap, ◌∙◌, Bool, true, false, none, some, List, [], ◌∷◌, arith, inl, inr,
  Option-cases, any, ok, err, >>=-eq-ok, Result-cases, or_throw,
}
use desire_mlm_project.Decimal.{Decimal}
use desire_mlm_project.CostSheet.Types.{
  ChargeHeadSpec, CostSheetInput, CostSheetResult, CostSheetError, plc, unpriced_plc_tag,
}
use desire_mlm_project.CostSheet.Compute.{
  Draft, compute_cost_sheet, price_unit, price_from_list, price_plc, price_tags, base_line,
  first_draft, require_head_by_category,
}
use desire_mlm_project.CostSheet.Commissionable.{compute_cost_sheet-eq_ok}

module _ {D : Type 0} ⦃d : Decimal D⦄ where
  open d use {mul, to_decimal_places2}

  -- The price list has no charge for the tag.
  abbrev pub is_unpriced : CostSheetInput D → ℕ → Bool
  is_unpriced input tag = elim (input.plc_charges_by_tag tag) [ none ↦ true | some _ ↦ false ]

  price_tags-eq_ok :
      (input : CostSheetInput D) (head : ChargeHeadSpec) (base_amount : D) (tags : List ℕ)
      (draft : Draft D) {result : Draft D}
      → price_tags input head base_amount tags draft ≡ ok result
      → any (is_unpriced input) tags ≡ false
  unfolding price_tags
  price_tags-eq_ok input head base_amount [] draft e = refl
  price_tags-eq_ok input head base_amount (tag ∷ tags) draft e =
      elim (Option-cases (input.plc_charges_by_tag tag)) [
        | inl missing ↦
            let (charge, found, _) =
              >>=-eq-ok (or_throw (input.plc_charges_by_tag tag) (unpriced_plc_tag tag)) _ e in
            absurd (ground arith)
        | inr (charge, found) ↦
            let (_, _, rest) =
              >>=-eq-ok (or_throw (input.plc_charges_by_tag tag) (unpriced_plc_tag tag)) _ e in
            rw (is_unpriced, found) (price_tags-eq_ok input head base_amount tags _ rest)
      ]

  price_plc-eq_ok :
      (input : CostSheetInput D) (base_amount : D) (tags : List ℕ) (draft : Draft D)
      {result : Draft D}
      → price_plc input base_amount tags draft ≡ ok result
      → any (is_unpriced input) tags ≡ false
  unfolding price_plc
  price_plc-eq_ok input base_amount [] draft e = refl
  price_plc-eq_ok input base_amount (tag ∷ tags) draft e =
      let (head, _, rest) = >>=-eq-ok (require_head_by_category input.charge_heads plc) _ e in
      price_tags-eq_ok input head base_amount (tag ∷ tags) draft rest

  price_from_list-eq_ok_tags :
      (input : CostSheetInput D) (head : ChargeHeadSpec) {sheet : CostSheetResult D}
      → price_from_list input head ≡ ok sheet
      → any (is_unpriced input) input.plc_tags ≡ false
  unfolding price_from_list
  price_from_list-eq_ok_tags input head e =
      let base_amount = to_decimal_places2 (mul input.saleable_area input.base_rate) in
      let first = first_draft (base_line input head base_amount) in
      let (_, priced, _) = >>=-eq-ok (price_plc input base_amount input.plc_tags first) _ e in
      price_plc-eq_ok input base_amount input.plc_tags first priced

  -- A unit that is priced from the list and carries a tag for which the list has no charge gets no
  -- sheet: the computation throws.
  pub compute_cost_sheet_refuses_unpriced :
      (input : CostSheetInput D)
      → input.price_override ≡ none
      → any (is_unpriced input) input.plc_tags ≡ true
      → (problem : CostSheetError) × (compute_cost_sheet input ≡ err problem)
  compute_cost_sheet_refuses_unpriced input listed unpriced =
      elim (Result-cases (compute_cost_sheet input)) [
        | inl refused ↦ refused
        | inr (sheet, computed) ↦
            let (head, _, priced) = compute_cost_sheet-eq_ok input computed in
            let all_priced =
              price_from_list-eq_ok_tags input head
                (ap (price_unit input head) (sym listed) ∙ priced) in
            absurd (ground arith)
      ]
