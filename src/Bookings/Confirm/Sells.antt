-- ===== src/Bookings/Confirm/Sells.antt =====
-- packages/services/src/bookings.ts: what a confirmation needs of the unit and does to it.
use desire_mlm_project.Base.{
  ℕ, ◌≡◌, refl, sym, ap, ◌∙◌, true, false, Option, some, List, ◌==◌, arith, inl, inr, Option-cases,
  ==-refl, Result, ok, err, Result-cases, >>=-eq-ok, >>-eq_ok, ok-injective, or_throw,
}
use desire_mlm_project.Decimal.{Decimal}
use desire_mlm_project.Inventory.Transitions.{held, booked, assert_valid_transition}
use desire_mlm_project.Inventory.Store.{InventoryUnit, UnitHold, converted_to_booking}
use desire_mlm_project.Inventory.Store as Inventory
use desire_mlm_project.Inventory.HoldExpiry.{is_hold_live, effective_unit_status, mark_released}
use desire_mlm_project.Inventory.Holds.Invariant.{held_by}
use desire_mlm_project.Payouts.Store.{AuditContext}
use desire_mlm_project.Receipts.Store.{Demand}
use desire_mlm_project.CostSheet.Types.{CostSheetResult}
use desire_mlm_project.PaymentPlans.Store.{PlanStore}
use desire_mlm_project.PaymentPlans.Schedule.{generate_demand_schedule}
use desire_mlm_project.Ledger.Store.{LedgerStore}
use desire_mlm_project.Ledger.Accrual.{AccrueCommissionResult, accrue_commission}
use desire_mlm_project.Bookings.Store.{
  BookingRow, BookingStore, BookingCatalogue, BookingError, actor_required, plan_problem,
  ledger_problem, illegal_transition,
}
use desire_mlm_project.Bookings.Confirm.{
  is_draft, with_problem, sell_unit, freeze, freeze_agreement_value, as_written, booking_for,
  hold_for, final_sheet, write_confirmation, confirm_checked, confirm_booking,
}

pub with_problem-eq_ok :
    {E A : Type 0} (wrap : E → BookingError) (m : Result E A) {a : A}
    → with_problem wrap m ≡ ok a
    → m ≡ ok a
with_problem-eq_ok wrap (ok a) h = ap ok (ok-injective h)
with_problem-eq_ok wrap (err problem) h = cc

module _ {D : Type 0} where
  booking_for-eq_ok :
      (c : BookingCatalogue D) (s : BookingStore D) (booking_id actor : ℕ) (audit : AuditContext)
      {b : BookingRow D}
      → booking_for c s booking_id actor audit ≡ ok b
      → (s.bookings.row booking_id ≡ some b)
        × (is_draft b.status ≡ true)
        × (c.may_confirm actor b.project_id ≡ true)
  unfolding booking_for
  booking_for-eq_ok c s booking_id actor audit {b} h =
      elim (Option-cases (s.bookings.row booking_id)) [
        | inl missing ↦ absurd (ground arith)
        | inr (x, found) ↦ (ground arith, ground arith, ground arith)
      ]

  hold_for-eq_ok :
      (b : BookingRow D) (now : ℕ) (s : Inventory.Store) {h : ℕ × UnitHold}
      → hold_for b now s ≡ ok h
      → (u : InventoryUnit) × (s.units.row b.unit_id ≡ some u)
        × (held_by h.0 (some u) ≡ true)
        × (s.holds.row h.0 ≡ some h.1)
        × (is_hold_live h.1 now ≡ true)
        × (h.1.associate_id ≡ b.selling_associate_id)
  unfolding hold_for effective_unit_status
  hold_for-eq_ok b now s {h} e = elim (Option-cases (s.units.row b.unit_id)) [
    | inl missing ↦ absurd (ground arith)
    | inr (u, found) ↦ elim (Option-cases u.current_hold_id) [
      | inl no_hold ↦ absurd (ground arith)
      | inr (hold_id, points) ↦ elim (Option-cases (s.holds.row hold_id)) [
        | inl missing ↦ absurd (ground arith)
        | inr (hold, is_hold) ↦ (u, found, ground arith, ground arith, ground arith, ground arith)
      ]
    ]
  ]

module _ {D : Type 0} ⦃d : Decimal D⦄ where
  -- What a confirmation went through.
  pub confirm_booking-eq_ok :
      (c : BookingCatalogue D) (s : BookingStore D) (new_demand new_entry : ℕ → ℕ)
      (booking_id now : ℕ) (audit : AuditContext) {after : BookingStore D}
      → confirm_booking c s new_demand new_entry booking_id now audit ≡ ok after
      → (b : BookingRow D) × (h : ℕ × UnitHold) × (sheet : CostSheetResult D) × (planned : PlanStore
            D
          × List (ℕ × Demand D))
        × (accrued : LedgerStore D × Option (AccrueCommissionResult D)) × (s.bookings.row booking_id
            ≡ some b)
        × (is_draft b.status ≡ true)
        × (hold_for b now s.inventory ≡ ok h)
        × (final_sheet c b ≡ ok sheet)
        × (generate_demand_schedule new_demand booking_id now audit
              (freeze_agreement_value booking_id sheet.agreement_value s.plans)
            ≡ ok planned)
        × (after
            ≡ write_confirmation booking_id b
                (freeze sheet now audit.actor_id b)
                h.0
                now
                audit
                sheet.lines
                planned.0
                accrued.0
                s)
  unfolding confirm_booking confirm_checked
  confirm_booking-eq_ok c s new_demand new_entry booking_id now audit {after} e =
      let (actor, _, e1) = >>=-eq-ok (or_throw audit.actor_id actor_required) _ e in
      let (b, is_b, e2) = >>=-eq-ok (booking_for c s booking_id actor audit) _ e1 in
      let (h, is_h, e3) = >>=-eq-ok (hold_for b now s.inventory) _ e2 in
      let (sheet, is_sheet, e4) = >>=-eq-ok (final_sheet c b) _ e3 in
      let frozen = freeze sheet now audit.actor_id b in
      let generated =
        generate_demand_schedule new_demand booking_id now audit
          (freeze_agreement_value booking_id sheet.agreement_value s.plans) in
      let accruing =
        accrue_commission new_entry (as_written booking_id frozen c.ledger) booking_id now audit
          s.ledger in
      let (planned, is_planned, e5) = >>=-eq-ok (with_problem plan_problem generated) _ e4 in
      let (accrued, is_accrued, e6) = >>=-eq-ok (with_problem ledger_problem accruing) _ e5 in
      let (found, drafted, _) = booking_for-eq_ok c s booking_id actor audit is_b in
      (
        b,
        h,
        sheet,
        planned,
        accrued,
        found,
        drafted,
        is_h,
        is_sheet,
        with_problem-eq_ok plan_problem generated is_planned,
        sym (
            ok-injective
              (>>-eq_ok (assert_valid_transition illegal_transition held booked) _ e6).1),
      )

  -- A confirmation is of a DRAFT booking whose unit is HELD by a live hold of the selling associate. It
  -- makes the unit BOOKED, with no hold, releases that hold as converted, changes no other unit or
  -- hold, and a second confirmation of the booking is refused, whoever makes it.
  pub confirm_booking_lem :
      (c : BookingCatalogue D) (s after : BookingStore D) (new_demand new_entry : ℕ → ℕ)
      (booking_id now : ℕ) (audit : AuditContext)
      → confirm_booking c s new_demand new_entry booking_id now audit ≡ ok after
      → (b : BookingRow D) × (u : InventoryUnit) × (h : ℕ × UnitHold) × (s.bookings.row booking_id
          ≡ some b)
        × (is_draft b.status ≡ true)
        × (s.inventory.units.row b.unit_id ≡ some u)
        × (held_by h.0 (some u) ≡ true)
        × (s.inventory.holds.row h.0 ≡ some h.1)
        × (is_hold_live h.1 now ≡ true)
        × (h.1.associate_id ≡ b.selling_associate_id)
        × (after.inventory.units.row b.unit_id ≡ some (sell_unit u))
        × (after.inventory.holds.row h.0
            ≡ some (mark_released now converted_to_booking audit.actor_id h.1))
        × ((k : ℕ) → k == b.unit_id ≡ false → after.inventory.units.row k ≡ s.inventory.units.row k)
        × ((k : ℕ) → k == h.0 ≡ false → after.inventory.holds.row k ≡ s.inventory.holds.row k)
        × ((later : ℕ) (audit' : AuditContext)
            → (problem : BookingError) × (confirm_booking c after new_demand new_entry booking_id
                  later audit'
                ≡ err problem))
  confirm_booking_lem c s after new_demand new_entry booking_id now audit e =
      let (b, h, sheet, planned, accrued, found, drafted, is_h, _, _, written) =
        confirm_booking-eq_ok c s new_demand new_entry booking_id now audit e in
      let (u, is_u, pointed, is_hold, live, seller) = hold_for-eq_ok b now s.inventory is_h in
      let units : (k : ℕ) → _ = λ k. ap (λ (t : BookingStore D). t.inventory.units.row k) written in
      let holds : (k : ℕ) → _ = λ k. ap (λ (t : BookingStore D). t.inventory.holds.row k) written in
      (
        b,
        u,
        h,
        found,
        drafted,
        is_u,
        pointed,
        is_hold,
        live,
        seller,
        units b.unit_id ∙ rw (==-refl b.unit_id, is_u) refl,
        holds h.0 ∙ rw (==-refl h.0, is_hold) refl,
        λ k other. units k ∙ rw other refl,
        λ k other. holds k ∙ rw other refl,
        λ later audit'.
            elim (Result-cases
              (confirm_booking c after new_demand new_entry booking_id later audit')) [
                | inl refused ↦ refused
                | inr (last, again) ↦
                    let (b', _, _, _, _, found', drafted', _, _, _, _) =
                      confirm_booking-eq_ok c after new_demand new_entry booking_id later audit'
                        again in
                    let row : after.bookings.row booking_id
                        ≡ some (freeze sheet now audit.actor_id b) =
                      ap (λ (t : BookingStore D). t.bookings.row booking_id) written
                      ∙ rw (==-refl booking_id, found) refl in
                    absurd (ground arith)
              ],
      )
