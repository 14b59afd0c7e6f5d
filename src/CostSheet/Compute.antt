-- ===== src/CostSheet/Compute.antt =====
-- packages/services/src/cost-sheet.ts: `computeCostSheet` and its helpers.
use desire_mlm_project.Base.{
  ℕ, ◌+◌, Bool, true, false, not, ◌||◌, Option, none, some, List, [], ◌∷◌, ◌++◌, ltb, ◌==◌, filter,
  sort_by, if◌then◌else◌, Result, ok, err, ◌>>=◌, ◌>>◌, or_throw, throw_if,
}
use desire_mlm_project.Decimal.{Decimal}
use desire_mlm_project.CostSheet.Types.{
  ChargeCategory, base_price, plc, parking, club_membership, ifms, electricity_water, power_backup,
  legal_documentation, stamp_duty, registration, other, per_area, pct_of_base, PlcCharge,
  ChargeHeadSpec, FixedChargeInput, CostSheetInput, Description, agreed_price, discount_given,
  head_name, tag_name, tag_percentage, discount_line, head_code, CostSheetLine, CostSheetResult,
  CostSheetError, saleable_area_not_positive, carpet_area_not_positive, areas_swapped,
  negative_base_rate, agreed_price_out_of_range, discount_with_agreed_price, negative_discount,
  no_head_of_category, ambiguous_category, head_not_configured, computed_category_charged,
  unpriced_plc_tag,
}

abbrev pub category_number : ChargeCategory → ℕ
category_number base_price = 0
category_number plc = 1
category_number parking = 2
category_number club_membership = 3
category_number ifms = 4
category_number electricity_water = 5
category_number power_backup = 6
category_number legal_documentation = 7
category_number stamp_duty = 8
category_number registration = 9
category_number other = 10

-- `COMPUTED_CATEGORIES`
abbrev pub is_computed : ChargeCategory → Bool
is_computed base_price = true
is_computed plc = true
is_computed _ = false

abbrev pub has_category : ChargeCategory → ChargeHeadSpec → Bool
has_category category head = category_number head.category == category_number category

abbrev pub only_head : ChargeCategory → List ChargeHeadSpec → Result CostSheetError ChargeHeadSpec
only_head category [] = err (no_head_of_category category)
only_head category (head ∷ []) = ok head
only_head category (head ∷ next ∷ rest) = err (ambiguous_category head.code)

unfoldable pub require_head_by_category :
    List ChargeHeadSpec → ChargeCategory → Result CostSheetError ChargeHeadSpec
require_head_by_category heads category = only_head category (filter (has_category category) heads)

abbrev pub later_head : ChargeHeadSpec → Option ChargeHeadSpec → ChargeHeadSpec
later_head head none = head
later_head head (some later) = later

-- `headsByCode.get`: of two heads with one code the map holds the later.
unfoldable pub head_by_code : ℕ → List ChargeHeadSpec → Option ChargeHeadSpec
head_by_code code [] = none
head_by_code code (head ∷ heads) =
    let rest = head_by_code code heads in
    if head.code == code then some (later_head head rest) else rest

module _ {D : Type 0} where
  -- `maxDisplayOrder`, from the maximum so far
  unfoldable pub max_display_order : ℕ → List (CostSheetLine D) → ℕ
  max_display_order max [] = max
  max_display_order max (line ∷ lines) =
      max_display_order (if ltb max line.display_order then line.display_order else max) lines

  abbrev pub build_line :
      ChargeHeadSpec → Description D → (quantity rate : Option D) → D → CostSheetLine D
  build_line head description quantity rate amount = record {
    charge_head_code = head_code head.code;
    description = description;
    quantity = quantity;
    rate = rate;
    amount = amount;
    counts_toward_commission = head.counts_toward_commission;
    display_order = head.display_order;
  }

-- The lines so far and the running sums of the loops.
pub record Draft (D : Type 0) : Type 0 where
  pub lines : List (CostSheetLine D)
  pub plc_amount : D
  pub other_charges_amount : D
  pub stamp_duty_amount : D
  pub registration_amount : D

module _ {D : Type 0} ⦃d : Decimal D⦄ where
  open d use {
    zero as nought, hundred, of_nat, plus, minus, mul, div, negated, to_decimal_places2,
    greater_than, less_than_or_equal_to, is_zero, is_negative,
  }

  abbrev pub max_price_override : D
  max_price_override = of_nat 100_000_000_000

  abbrev pub assert_carpet_area : Option D → D → Result CostSheetError (Unit {0})
  assert_carpet_area none saleable_area = ok tt
  assert_carpet_area (some carpet_area) saleable_area =
      throw_if (less_than_or_equal_to carpet_area nought) carpet_area_not_positive
      >> throw_if (greater_than carpet_area saleable_area) areas_swapped

  unfoldable pub assert_areas_and_rate : CostSheetInput D → Result CostSheetError (Unit {0})
  assert_areas_and_rate input =
      throw_if (less_than_or_equal_to input.saleable_area nought) saleable_area_not_positive
      >> assert_carpet_area input.carpet_area input.saleable_area
      >> throw_if (is_negative input.base_rate) negative_base_rate

  -- The sheet of an agreed price: one line.
  abbrev pub agreed_sheet : CostSheetInput D → ChargeHeadSpec → D → CostSheetResult D
  agreed_sheet input base_head price = record {
    lines = build_line base_head agreed_price none none price ∷ [];
    saleable_area = input.saleable_area;
    carpet_area = input.carpet_area;
    base_amount = price;
    plc_amount = nought;
    other_charges_amount = nought;
    discount_amount = nought;
    stamp_duty_amount = nought;
    registration_amount = nought;
    agreement_value = price;
    commissionable_value = if base_head.counts_toward_commission then price else nought;
  }

  unfoldable pub price_agreed :
      CostSheetInput D → ChargeHeadSpec → D → Result CostSheetError (CostSheetResult D)
  price_agreed input base_head price_override =
      let price = to_decimal_places2 price_override in
      throw_if (less_than_or_equal_to price nought || greater_than price max_price_override)
        agreed_price_out_of_range
      >> throw_if (not (is_zero input.discount)) discount_with_agreed_price
      >> ok (agreed_sheet input base_head price)

  abbrev pub plc_line_amount : CostSheetInput D → D → PlcCharge D → D
  plc_line_amount input base_amount charge = elim charge.basis [
    | pct_of_base ↦ to_decimal_places2 (div (mul base_amount charge.value) hundred)
    | per_area ↦ to_decimal_places2 (mul input.saleable_area charge.value)
  ]

  abbrev pub plc_line : CostSheetInput D → ChargeHeadSpec → D → ℕ → PlcCharge D → CostSheetLine D
  plc_line input head base_amount tag charge =
      let amount = plc_line_amount input base_amount charge in
      elim charge.basis [
        | pct_of_base ↦ build_line head (tag_percentage head.name tag charge.value) none none amount
        | per_area ↦
            build_line head (tag_name head.name tag) (some input.saleable_area) (some charge.value)
              amount
      ]

  abbrev pub add_plc_line : CostSheetLine D → Draft D → Draft D
  add_plc_line line draft = record draft {
    lines = draft.lines ++ (line ∷ []);
    plc_amount = plus draft.plc_amount line.amount;
  }

  unfoldable pub price_tags :
      CostSheetInput D → ChargeHeadSpec → D → List ℕ → Draft D → Result CostSheetError (Draft D)
  price_tags input head base_amount [] draft = ok draft
  price_tags input head base_amount (tag ∷ tags) draft =
      or_throw (input.plc_charges_by_tag tag) (unpriced_plc_tag tag) >>= λ charge.
      price_tags input head base_amount tags
        (add_plc_line (plc_line input head base_amount tag charge) draft)

  -- The block of the preferential location charges; the head is asked for only where there are tags.
  unfoldable pub price_plc :
      CostSheetInput D → D → List ℕ → Draft D → Result CostSheetError (Draft D)
  unfolding require_head_by_category price_tags
  price_plc input base_amount [] draft = ok draft
  price_plc input base_amount (tag ∷ tags) draft =
      require_head_by_category input.charge_heads plc >>= λ head.
      price_tags input head base_amount (tag ∷ tags) draft

  abbrev pub charge_line : ChargeHeadSpec → FixedChargeInput D → CostSheetLine D
  charge_line head charge =
      build_line head (head_name head.name) none none (to_decimal_places2 charge.amount)

  -- The line, and its amount in the sum that its category belongs to.
  abbrev pub add_charge : ChargeHeadSpec → CostSheetLine D → Draft D → Draft D
  add_charge head line draft =
      let lines = draft.lines ++ (line ∷ []) in
      if has_category stamp_duty head
      then record draft {
        lines = lines;
        stamp_duty_amount = plus draft.stamp_duty_amount line.amount;
      }
      else if has_category registration head
      then record draft {
        lines = lines;
        registration_amount = plus draft.registration_amount line.amount;
      }
      else record draft {
        lines = lines;
        other_charges_amount = plus draft.other_charges_amount line.amount;
      }

  unfoldable pub price_charges :
      List ChargeHeadSpec → List (FixedChargeInput D) → Draft D → Result CostSheetError (Draft D)
  unfolding head_by_code
  price_charges heads [] draft = ok draft
  price_charges heads (charge ∷ charges) draft =
      or_throw (head_by_code charge.charge_head_code heads)
        (head_not_configured charge.charge_head_code)
      >>= λ head.
          throw_if (is_computed head.category) (computed_category_charged head.code)
          >> price_charges heads charges (add_charge head (charge_line head charge) draft)

  abbrev pub discount_lines : D → List (CostSheetLine D) → List (CostSheetLine D)
  discount_lines discount_amount lines =
      if is_zero discount_amount
      then lines
      else lines
        ++ (record {
          charge_head_code = discount_line;
          description = discount_given;
          quantity = none;
          rate = none;
          amount = negated discount_amount;
          counts_toward_commission = false;
          display_order = max_display_order 0 lines + 1;
        }
            ∷ [])

  -- `lines.filter(…).reduce(…)`
  unfoldable pub sum_commissionable : D → List (CostSheetLine D) → D
  sum_commissionable sum [] = sum
  sum_commissionable sum (line ∷ lines) =
      sum_commissionable (if line.counts_toward_commission then plus sum line.amount else sum) lines

  abbrev pub sort_lines : List (CostSheetLine D) → List (CostSheetLine D)
  sort_lines = sort_by λ line. line.display_order

  unfoldable pub finish_sheet : CostSheetInput D → D → D → Draft D → CostSheetResult D
  unfolding max_display_order sum_commissionable
  finish_sheet input base_amount discount_amount draft =
      let lines = sort_lines (discount_lines discount_amount draft.lines) in
      let gross =
        minus (plus (plus base_amount draft.plc_amount) draft.other_charges_amount)
          discount_amount in
      record {
        lines = lines;
        saleable_area = input.saleable_area;
        carpet_area = input.carpet_area;
        base_amount = base_amount;
        plc_amount = draft.plc_amount;
        other_charges_amount = draft.other_charges_amount;
        discount_amount = discount_amount;
        stamp_duty_amount = draft.stamp_duty_amount;
        registration_amount = draft.registration_amount;
        agreement_value = plus (plus gross draft.stamp_duty_amount) draft.registration_amount;
        commissionable_value = sum_commissionable nought lines;
      }

  abbrev pub base_line : CostSheetInput D → ChargeHeadSpec → D → CostSheetLine D
  base_line input head base_amount =
      build_line head (head_name head.name) (some input.saleable_area) (some input.base_rate)
        base_amount

  abbrev pub first_draft : CostSheetLine D → Draft D
  first_draft line = record {
    lines = line ∷ [];
    plc_amount = nought;
    other_charges_amount = nought;
    stamp_duty_amount = nought;
    registration_amount = nought;
  }

  -- The sheet that is computed from the price list.
  unfoldable pub price_from_list :
      CostSheetInput D → ChargeHeadSpec → Result CostSheetError (CostSheetResult D)
  unfolding price_plc price_charges finish_sheet
  price_from_list input base_head = do
    let base_amount = to_decimal_places2 (mul input.saleable_area input.base_rate)
    with_plc ←
        price_plc input base_amount input.plc_tags
          (first_draft (base_line input base_head base_amount))
    draft ← price_charges input.charge_heads input.other_charges with_plc
    let discount_amount = to_decimal_places2 input.discount
    throw_if (is_negative discount_amount) negative_discount
    ok (finish_sheet input base_amount discount_amount draft)

  abbrev pub price_unit :
      CostSheetInput D → ChargeHeadSpec → Option D → Result CostSheetError (CostSheetResult D)
  price_unit input base_head none = price_from_list input base_head
  price_unit input base_head (some price) = price_agreed input base_head price

  unfoldable pub compute_cost_sheet : CostSheetInput D → Result CostSheetError (CostSheetResult D)
  unfolding assert_areas_and_rate require_head_by_category price_from_list price_agreed
  compute_cost_sheet input = do
    assert_areas_and_rate input
    base_head ← require_head_by_category input.charge_heads base_price
    price_unit input base_head input.price_override
