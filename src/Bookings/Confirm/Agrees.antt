-- ===== src/Bookings/Confirm/Agrees.antt =====
-- packages/services/src/bookings.ts: the value that a confirmation freezes.
use desire_mlm_project.Base.{
  ℕ, ◌≤◌, ◌≡◌, refl, sym, ap, ◌∙◌, some, List, ◌++◌, map, length, ok, >>=-eq-ok, or_throw,
}
use desire_mlm_project.Decimal.{Decimal, IsExact}
use desire_mlm_project.Payouts.Store.{AuditContext}
use desire_mlm_project.Receipts.Store.{Booking, Demand}
use desire_mlm_project.CostSheet.Types.{CostSheetInput, CostSheetResult}
use desire_mlm_project.CostSheet.Compute.{compute_cost_sheet}
use desire_mlm_project.CostSheet.Totals.{total_amount}
use desire_mlm_project.CostSheet.Reconcile.{compute_cost_sheet_reconciles}
use desire_mlm_project.PaymentPlans.Plans.{milestones_of}
use desire_mlm_project.PaymentPlans.Schedule.{generate_demand_schedule}
use desire_mlm_project.PaymentPlans.Schedule.Exact.{sum_demands, generate_demand_schedule_exact}
use desire_mlm_project.Base.{==-refl}
use desire_mlm_project.Bookings.Store.{
  BookingRow, BookingStore, BookingCatalogue, cost_sheet_problem, invalid_price_list,
}
use desire_mlm_project.Bookings.Confirm.{freeze_agreement_value, final_sheet, confirm_booking}
use desire_mlm_project.Bookings.Confirm.Sells.{confirm_booking-eq_ok, with_problem-eq_ok}

module _ {D : Type 0} ⦃d : Decimal D⦄ ⦃x : IsExact D⦄ where
  open d use {zero as nought}

  final_sheet_reconciles :
      (c : BookingCatalogue D) (b : BookingRow D) {sheet : CostSheetResult D}
      → final_sheet c b ≡ ok sheet
      → total_amount sheet.lines ≡ sheet.agreement_value
  unfolding final_sheet
  final_sheet_reconciles c b {sheet} e =
      let (input, _, computed) =
        >>=-eq-ok (or_throw (c.pricing b.org_id b.unit_id b.price_list_id) invalid_price_list) _
          e in
      let priced : CostSheetInput D = record input {
        discount = b.discount_amount;
        price_override = b.price_override;
      } in
      compute_cost_sheet_reconciles priced sheet
        (with_problem-eq_ok cost_sheet_problem (compute_cost_sheet priced) computed)

  -- A confirmation of a booking whose payment plan has milestones appends the lines of a cost sheet and
  -- generates one demand for each milestone, and both the lines and the demands add up to the sheet's
  -- agreement value.
  pub confirm_booking_agrees :
      (c : BookingCatalogue D) (s after : BookingStore D) (new_demand new_entry : ℕ → ℕ)
      (booking_id now plan_id : ℕ) (audit : AuditContext) (money : Booking D)
      → s.plans.collections.bookings.row booking_id ≡ some money
      → money.payment_plan_id ≡ some plan_id
      → 1 ≤ length (milestones_of plan_id s.plans)
      → confirm_booking c s new_demand new_entry booking_id now audit ≡ ok after
      → (sheet : CostSheetResult D) × (demands : List (ℕ × Demand D)) × (after.cost_sheet_lines
          ≡ s.cost_sheet_lines ++ map (λ line. (booking_id, line)) sheet.lines)
        × (generate_demand_schedule new_demand booking_id now audit
              (freeze_agreement_value booking_id sheet.agreement_value s.plans)
            ≡ ok (after.plans, demands))
        × (length demands ≡ length (milestones_of plan_id s.plans))
        × (total_amount sheet.lines ≡ sheet.agreement_value)
        × (sum_demands nought demands ≡ sheet.agreement_value)
  confirm_booking_agrees c s after new_demand new_entry booking_id now plan_id audit money found
        planned some_milestones e =
      let (b, h, sheet, (plans, demands), accrued, _, _, _, is_sheet, generated, written) =
        confirm_booking-eq_ok c s new_demand new_entry booking_id now audit e in
      let frozen : Booking D = record money { agreement_value = sheet.agreement_value } in
      let (number, _, sum) =
        generate_demand_schedule_exact new_demand booking_id now plan_id audit
          (freeze_agreement_value booking_id sheet.agreement_value s.plans) plans frozen demands
          (rw (==-refl booking_id, found) refl) planned generated in
      (
        sheet,
        demands,
        ap (λ (t : BookingStore D). t.cost_sheet_lines) written,
        generated ∙ ap (λ p. ok (p, demands)) (sym (ap (λ (t : BookingStore D). t.plans) written)),
        number,
        final_sheet_reconciles c b is_sheet,
        sum some_milestones,
      )
