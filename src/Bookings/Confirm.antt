-- ===== src/Bookings/Confirm.antt =====
-- packages/services/src/bookings.ts: `confirmBooking`, up to the commit. The identifiers that the database
-- gives the new demands and entries are arguments.
pub mod Sells
pub mod Agrees
use desire_mlm_project.Base.{
  ℕ, Bool, true, false, not, ◌&&◌, ◌||◌, Option, none, some, List, [], ◌∷◌, ◌++◌, ◌==◌, map, length,
  if◌then◌else◌, Result, ok, err, ◌>>=◌, ◌>>◌, or_throw, throw_if,
}
use desire_mlm_project.Decimal.{Decimal}
use desire_mlm_project.Table.{Table, update}
use desire_mlm_project.Inventory.Transitions.{
  UnitStatus, held, booked, is_status, assert_valid_transition,
}
use desire_mlm_project.Inventory.Store.{
  InventoryUnit, UnitHold, converted_to_booking, HistoryReason, noted,
}
use desire_mlm_project.Inventory.Store as Inventory
use desire_mlm_project.Inventory.HoldExpiry.{
  is_hold_live, effective_unit_status, add_history, mark_released,
}
use desire_mlm_project.Payouts.Store.{AuditContext}
use desire_mlm_project.Receipts.Store.{Booking, Demand}
use desire_mlm_project.CostSheet.Types.{CostSheetInput, CostSheetLine, CostSheetResult}
use desire_mlm_project.CostSheet.Compute.{compute_cost_sheet}
use desire_mlm_project.PaymentPlans.Store.{PlanStore}
use desire_mlm_project.PaymentPlans.Schedule.{generate_demand_schedule}
use desire_mlm_project.Ledger.Store.{LedgerStore, LedgerCatalogue, SoldBooking}
use desire_mlm_project.Ledger.Accrual.{accrue_commission}
use desire_mlm_project.Bookings.Store.{
  BookingStatus, draft, pending_approval, confirmed, agreement_signed, registered, possession_given,
  cancelled, BookingRow, booking_confirmed, BookingStore, BookingCatalogue, BookingError,
  actor_required, other_organisation, not_permitted, booking_not_found, unit_not_found,
  unit_not_held, invalid_price_list, invalid_booking_state, held_by_another, cost_sheet_problem,
  plan_problem, ledger_problem, illegal_transition,
}

abbrev pub is_draft : BookingStatus → Bool
is_draft draft = true
is_draft _ = false

-- An error of a called service passes through.
abbrev pub with_problem : {E A : Type 0} → (E → BookingError) → Result E A → Result BookingError A
with_problem wrap (ok a) = ok a
with_problem wrap (err problem) = err (wrap problem)

abbrev pub hold_of : Option ℕ → Inventory.Store → Option (ℕ × UnitHold)
hold_of none s = none
hold_of (some hold_id) s = elim (s.holds.row hold_id) [
  | none ↦ none
  | some hold ↦ some (hold_id, hold)
]

abbrev pub without_id : Option (ℕ × UnitHold) → Option UnitHold
without_id none = none
without_id (some h) = some h.1

-- The hold, if the unit is HELD by it now.
abbrev pub live_hold :
    (now : ℕ) → UnitStatus → Option (ℕ × UnitHold) → Result BookingError (ℕ × UnitHold)
live_hold now status none = err unit_not_held
live_hold now status (some h) =
    if is_status (effective_unit_status status (some h.1) now) held && is_hold_live h.1 now
    then ok h
    else err unit_not_held

abbrev pub sell_unit : InventoryUnit → InventoryUnit
sell_unit u = record u { status = booked; current_hold_id = none }

-- The hold is converted, the unit BOOKED, and the change recorded.
abbrev pub convert_hold :
    (booking_number unit_id hold_id now : ℕ)
    → (actor : Option ℕ) → Inventory.Store
    → Inventory.Store
convert_hold booking_number unit_id hold_id now actor s =
    add_history unit_id held booked (noted booking_number) actor (record s {
      holds = update hold_id (mark_released now converted_to_booking actor) s.holds;
      units = update unit_id sell_unit s.units;
    })

module _ {D : Type 0} where
  -- The columns that the confirmation freezes.
  abbrev pub freeze :
      CostSheetResult D → (now : ℕ) → (actor : Option ℕ) → BookingRow D → BookingRow D
  freeze sheet now actor b = record b {
    status = confirmed;
    confirmed_at = some now;
    confirmed_by_id = actor;
    base_amount = sheet.base_amount;
    plc_amount = sheet.plc_amount;
    other_charges_amount = sheet.other_charges_amount;
    discount_amount = sheet.discount_amount;
    stamp_duty_amount = sheet.stamp_duty_amount;
    registration_amount = sheet.registration_amount;
    commissionable_value = sheet.commissionable_value;
  }

  abbrev pub freeze_agreement_value : (booking_id : ℕ) → D → PlanStore D → PlanStore D
  freeze_agreement_value booking_id agreement_value s = record s {
    collections = record s.collections {
      bookings =
          update booking_id (λ (b : Booking D). record b { agreement_value = agreement_value })
            s.collections.bookings;
    };
  }

  abbrev pub sold : BookingRow D → SoldBooking D
  sold b = record {
    org_id = b.org_id;
    project_id = b.project_id;
    booking_date = b.booking_date;
    commissionable_value = b.commissionable_value;
    saleable_area_at_booking = b.saleable_area_at_booking;
    selling_associate_id = b.selling_associate_id;
  }

  -- The accrual reads the booking as it has just been written.
  abbrev pub as_written : (booking_id : ℕ) → BookingRow D → LedgerCatalogue D → LedgerCatalogue D
  as_written booking_id b c = record c {
    booking = λ k. if k == booking_id then some (sold b) else c.booking k;
  }

  -- The booking that the caller may confirm.
  unfoldable pub booking_for :
      BookingCatalogue D
      → BookingStore D
      → (booking_id actor : ℕ) → AuditContext
      → Result BookingError (BookingRow D)
  booking_for c s booking_id actor audit = do
    b ← or_throw (s.bookings.row booking_id) booking_not_found
    throw_if (not (b.org_id == audit.org_id)) other_organisation
    throw_if (not (c.may_confirm actor b.project_id)) not_permitted
    throw_if (not (is_draft b.status)) (invalid_booking_state b.status)
    ok b

  -- The live hold of the booking's unit, by the booking's seller.
  unfoldable pub hold_for :
      BookingRow D → (now : ℕ) → Inventory.Store → Result BookingError (ℕ × UnitHold)
  unfolding effective_unit_status
  hold_for b now s = do
    unit ← or_throw (s.units.row b.unit_id) unit_not_found
    hold ← live_hold now unit.status (hold_of unit.current_hold_id s)
    throw_if (not (hold.1.associate_id == b.selling_associate_id))
        (held_by_another hold.1.associate_id b.selling_associate_id)
    ok hold

  -- What is written after the schedule and the accrual.
  abbrev pub write_confirmation :
      (booking_id : ℕ)
      → (before after : BookingRow D) → (hold_id now : ℕ) → AuditContext
      → List (CostSheetLine D)
      → PlanStore D
      → LedgerStore D
      → BookingStore D
      → BookingStore D
  write_confirmation booking_id before after hold_id now audit lines plans ledger s = record s {
    bookings = update booking_id (λ _. after) s.bookings;
    inventory =
        convert_hold before.booking_number before.unit_id hold_id now audit.actor_id s.inventory;
    plans = plans;
    ledger = ledger;
    cost_sheet_lines = s.cost_sheet_lines ++ map (λ line. (booking_id, line)) lines;
    history =
        s.history
        ++ (record {
          booking_id = booking_id;
          from_status = draft;
          to_status = confirmed;
          actor_id = audit.actor_id;
        }
            ∷ []);
    audit_log =
        s.audit_log ++ ((audit, booking_confirmed booking_id before after (length lines)) ∷ []);
  }

module _ {D : Type 0} ⦃d : Decimal D⦄ where
  -- The sheet of the pinned price list, with the booking's discount and agreed price.
  unfoldable pub final_sheet :
      BookingCatalogue D → BookingRow D → Result BookingError (CostSheetResult D)
  unfolding compute_cost_sheet
  final_sheet c b = do
    input ← or_throw (c.pricing b.org_id b.unit_id b.price_list_id) invalid_price_list
    with_problem cost_sheet_problem (
        compute_cost_sheet
          (record input { discount = b.discount_amount; price_override = b.price_override }))

  -- The freeze, the schedule, the accrual and the conversion of the hold.
  unfoldable pub confirm_checked :
      BookingCatalogue D
      → (new_demand new_entry : ℕ → ℕ) (booking_id now : ℕ) → AuditContext
      → BookingStore D
      → BookingRow D
      → (hold_id : ℕ) → CostSheetResult D
      → Result BookingError (BookingStore D)
  unfolding generate_demand_schedule accrue_commission assert_valid_transition
  confirm_checked c new_demand new_entry booking_id now audit s b hold_id sheet = do
    let after = freeze sheet now audit.actor_id b
    planned ← with_problem plan_problem (
        generate_demand_schedule new_demand booking_id now audit
          (freeze_agreement_value booking_id sheet.agreement_value s.plans))
    accrued ← with_problem ledger_problem (
        accrue_commission new_entry (as_written booking_id after c.ledger) booking_id now audit
          s.ledger)
    assert_valid_transition illegal_transition held booked
    ok (write_confirmation booking_id b after hold_id now audit sheet.lines planned.0 accrued.0 s)

  unfoldable pub confirm_booking :
      BookingCatalogue D
      → BookingStore D
      → (new_demand new_entry : ℕ → ℕ) (booking_id now : ℕ) → AuditContext
      → Result BookingError (BookingStore D)
  unfolding booking_for hold_for final_sheet confirm_checked
  confirm_booking c s new_demand new_entry booking_id now audit = do
    actor ← or_throw audit.actor_id actor_required
    b ← booking_for c s booking_id actor audit
    hold ← hold_for b now s.inventory
    sheet ← final_sheet c b
    confirm_checked c new_demand new_entry booking_id now audit s b hold.0 sheet
