-- ===== src/CostSheet/Reconcile.antt =====
-- packages/services/src/cost-sheet.ts: the printed lines add up to the agreement value.
use mathlib.Core.Path.{subst}
use desire_mlm_project.Base.{
  ℕ, ◌≡◌, ap, ◌∙◌, Option, none, some, List, [], ◌∷◌, arith, inl, inr, Bool-cases, ok, ◌>>◌,
  >>=-eq-ok, >>-eq_ok, not, ◌||◌, throw_if->>-eq_ok, ok-injective, or_throw, throw_if,
}
use desire_mlm_project.Decimal.{Decimal, IsExact}
use desire_mlm_project.Decimal.Laws.{
  plus_assoc, plus_zero, carry_second, carry_third, carry_fourth, minus_nought, plus-negated,
  take_off_third,
}
use desire_mlm_project.CostSheet.Totals.{amount_of, total_amount, total_of-append, total_of-sort_by}
use desire_mlm_project.CostSheet.Types.{
  ChargeHeadSpec, FixedChargeInput, CostSheetInput, CostSheetLine, CostSheetResult, stamp_duty,
  registration, base_price, plc, unpriced_plc_tag, head_not_configured, computed_category_charged,
  negative_discount, agreed_price_out_of_range, discount_with_agreed_price,
}
use desire_mlm_project.CostSheet.Compute.{
  Draft, compute_cost_sheet, price_unit, price_from_list, price_agreed, agreed_sheet, finish_sheet,
  price_plc, price_tags, price_charges, add_plc_line, plc_line, add_charge, charge_line, base_line,
  first_draft, discount_lines, require_head_by_category, head_by_code, has_category, is_computed,
  assert_areas_and_rate, max_price_override,
}

module _ {D : Type 0} ⦃d : Decimal D⦄ where
  open d use {
    zero as nought, plus, minus, mul, negated, to_decimal_places2, is_zero, is_negative,
    less_than_or_equal_to, greater_than,
  }

  -- The sum of the parts of a draft, its base amount included.
  abbrev pub parts : D → Draft D → D
  parts base_amount draft =
      plus
        (plus (plus (plus base_amount draft.plc_amount) draft.other_charges_amount)
          draft.stamp_duty_amount)
        draft.registration_amount

  module _ ⦃x : IsExact D⦄ where
    open x use {eq_of_value, plus_value, minus_value, zero_value, negated_value, is_zero_value}

    first_draft_lem :
        (line : CostSheetLine D) → total_amount (line ∷ []) ≡ parts line.amount (first_draft line)
    first_draft_lem line = eq_of_value _ _ (
        omega (
          arith,
          zero_value,
          plus_value line.amount nought,
          plus_value (plus line.amount nought) nought,
          plus_value (plus (plus line.amount nought) nought) nought,
          plus_value (plus (plus (plus line.amount nought) nought) nought) nought,
        ))

    module _ (base_amount : D) where
      -- The lines so far add up to the base amount and the running sums.
      abbrev Reconciles : Draft D → Type 0
      Reconciles draft = total_amount draft.lines ≡ parts base_amount draft

      add_plc_line-Reconciles :
          (line : CostSheetLine D) (draft : Draft D)
          → Reconciles draft
          → Reconciles (add_plc_line line draft)
      add_plc_line-Reconciles line draft h =
          total_of-append amount_of draft.lines line
          ∙ ap (λ t. plus t line.amount) h
          ∙ carry_fourth base_amount draft.plc_amount draft.other_charges_amount
              draft.stamp_duty_amount draft.registration_amount line.amount

      add_charge-Reconciles :
          (head : ChargeHeadSpec) (line : CostSheetLine D) (draft : Draft D)
          → Reconciles draft
          → Reconciles (add_charge head line draft)
      add_charge-Reconciles head line draft h =
          let total = total_of-append amount_of draft.lines line ∙ ap (λ t. plus t line.amount) h in
          elim (Bool-cases (has_category stamp_duty head)) [
            | inl e ↦ rw e (
                total
                ∙ carry_second (plus (plus base_amount draft.plc_amount) draft.other_charges_amount)
                    draft.stamp_duty_amount draft.registration_amount line.amount)
            | inr e ↦ elim (Bool-cases (has_category registration head)) [
              | inl e' ↦ rw (e, e') (total ∙ plus_assoc _ _ _)
              | inr e' ↦
                  rw (e, e')
                    (total
                      ∙ carry_third (plus base_amount draft.plc_amount) draft.other_charges_amount
                          draft.stamp_duty_amount draft.registration_amount line.amount)
            ]
          ]

      price_tags-Reconciles :
          (input : CostSheetInput D) (head : ChargeHeadSpec) (base : D) (tags : List ℕ)
          (draft : Draft D) {result : Draft D}
          → Reconciles draft
          → price_tags input head base tags draft ≡ ok result
          → Reconciles result
      unfolding price_tags
      price_tags-Reconciles input head base [] draft h e = cc
      price_tags-Reconciles input head base (tag ∷ tags) draft h e =
          let (charge, found, rest) =
            >>=-eq-ok (or_throw (input.plc_charges_by_tag tag) (unpriced_plc_tag tag)) _ e in
          let line = plc_line input head base tag charge in
          price_tags-Reconciles input head base tags (add_plc_line line draft)
            (add_plc_line-Reconciles line draft h) rest

      price_plc-Reconciles :
          (input : CostSheetInput D) (base : D) (tags : List ℕ) (draft : Draft D) {result : Draft D}
          → Reconciles draft
          → price_plc input base tags draft ≡ ok result
          → Reconciles result
      unfolding price_plc
      price_plc-Reconciles input base [] draft h e = cc
      price_plc-Reconciles input base (tag ∷ tags) draft h e =
          let (head, found, rest) =
            >>=-eq-ok (require_head_by_category input.charge_heads plc) _ e in
          price_tags-Reconciles input head base (tag ∷ tags) draft h rest

      price_charges-Reconciles :
          (heads : List ChargeHeadSpec) (charges : List (FixedChargeInput D)) (draft : Draft D)
          {result : Draft D}
          → Reconciles draft
          → price_charges heads charges draft ≡ ok result
          → Reconciles result
      unfolding price_charges
      price_charges-Reconciles heads [] draft h e = cc
      price_charges-Reconciles heads (charge ∷ charges) draft h e =
          let (head, found, rest) =
            >>=-eq-ok
              (or_throw (head_by_code charge.charge_head_code heads)
                (head_not_configured charge.charge_head_code))
              _ e in
          let line = charge_line head charge in
          let (plain, rest') =
            throw_if->>-eq_ok (is_computed head.category) (computed_category_charged head.code) _
              rest in
          price_charges-Reconciles heads charges (add_charge head line draft)
            (add_charge-Reconciles head line draft h) rest'

      -- The line of the discount takes the discount off the sum.
      total_amount-discount_lines :
          (discount : D) (lines : List (CostSheetLine D))
          → total_amount (discount_lines discount lines) ≡ minus (total_amount lines) discount
      total_amount-discount_lines discount lines = elim (Bool-cases (is_zero discount)) [
        | inl none_given ↦ rw none_given (minus_nought (total_amount lines) discount none_given)
        | inr given ↦ rw given (total_of-append amount_of lines _ ∙ plus-negated _ _)
      ]

      finish_sheet-Reconciles :
          (input : CostSheetInput D) (discount : D) (draft : Draft D)
          → Reconciles draft
          → total_amount (finish_sheet input base_amount discount draft).lines
            ≡ (finish_sheet input base_amount discount draft).agreement_value
      unfolding finish_sheet
      finish_sheet-Reconciles input discount draft h =
          total_of-sort_by amount_of _ (discount_lines discount draft.lines)
          ∙ total_amount-discount_lines discount draft.lines
          ∙ ap (λ t. minus t discount) h
          ∙ take_off_third _ draft.stamp_duty_amount draft.registration_amount discount

    price_from_list-reconciles :
        (input : CostSheetInput D) (head : ChargeHeadSpec) {sheet : CostSheetResult D}
        → price_from_list input head ≡ ok sheet
        → total_amount sheet.lines ≡ sheet.agreement_value
    unfolding price_from_list
    price_from_list-reconciles input head {sheet} e =
        let base_amount = to_decimal_places2 (mul input.saleable_area input.base_rate) in
        let discount = to_decimal_places2 input.discount in
        let first = first_draft (base_line input head base_amount) in
        let (with_plc, priced, charging) =
          >>=-eq-ok (price_plc input base_amount input.plc_tags first) _ e in
        let (draft, charged, finishing) =
          >>=-eq-ok (price_charges input.charge_heads input.other_charges with_plc) _ charging in
        let (sound, finished) =
          throw_if->>-eq_ok (is_negative discount) negative_discount
            (ok (finish_sheet input base_amount discount draft)) finishing in
        let reconciled =
          price_charges-Reconciles base_amount input.charge_heads input.other_charges with_plc
            (price_plc-Reconciles base_amount input base_amount input.plc_tags first
              (first_draft_lem (base_line input head base_amount)) priced)
            charged in
        subst (λ s. total_amount s.lines ≡ s.agreement_value) (ok-injective finished)
          (finish_sheet-Reconciles base_amount input discount draft reconciled)

    price_agreed-reconciles :
        (input : CostSheetInput D) (head : ChargeHeadSpec) (price : D) {sheet : CostSheetResult D}
        → price_agreed input head price ≡ ok sheet
        → total_amount sheet.lines ≡ sheet.agreement_value
    unfolding price_agreed
    price_agreed-reconciles input head price {sheet} e =
        let agreed = to_decimal_places2 price in
        let (_, finished) =
          >>-eq_ok
            (throw_if
                (less_than_or_equal_to agreed nought || greater_than agreed max_price_override)
                agreed_price_out_of_range
              >> throw_if (not (is_zero input.discount)) discount_with_agreed_price)
            (ok (agreed_sheet input head agreed)) e in
        subst (λ s. total_amount s.lines ≡ s.agreement_value) (ok-injective finished)
          (plus_zero agreed)

    price_unit-reconciles :
        (input : CostSheetInput D) (head : ChargeHeadSpec) (price : Option D)
        {sheet : CostSheetResult D}
        → price_unit input head price ≡ ok sheet
        → total_amount sheet.lines ≡ sheet.agreement_value
    price_unit-reconciles input head none e = price_from_list-reconciles input head e
    price_unit-reconciles input head (some price) e = price_agreed-reconciles input head price e

    -- The lines of a computed cost sheet, the discount's included, add up to its agreement value.
    pub compute_cost_sheet_reconciles :
        (input : CostSheetInput D) (sheet : CostSheetResult D)
        → compute_cost_sheet input ≡ ok sheet
        → total_amount sheet.lines ≡ sheet.agreement_value
    unfolding compute_cost_sheet
    compute_cost_sheet_reconciles input sheet e =
        let (_, rest) = >>-eq_ok (assert_areas_and_rate input) _ e in
        let (head, found, priced) =
          >>=-eq-ok (require_head_by_category input.charge_heads base_price) _ rest in
        price_unit-reconciles input head input.price_override priced
