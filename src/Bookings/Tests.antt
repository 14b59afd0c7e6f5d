-- ===== src/Bookings/Tests.antt =====
-- Booking 51 of unit 1, which hold 77 of associate 8 keeps; 81 asks for all of it at once.
use desire_mlm_project.Base.{
  ℕ, ◌≡◌, refl, true, false, none, some, List, [], ◌∷◌, ◌++◌, ◌==◌, map, length, arith, ok, err,
  Result,
}
use desire_mlm_project.Paise.{ℤ, pos, paise_decimal, paise_exact}
use desire_mlm_project.Table.{Table, insert}
use desire_mlm_project.Inventory.Transitions.{held, assert_valid_transition}
use desire_mlm_project.Inventory.Store.{InventoryUnit, UnitHold, converted_to_booking}
use desire_mlm_project.Inventory.HoldExpiry.{is_hold_live, mark_released}
use desire_mlm_project.Inventory.Holds.Invariant.{held_by}
use desire_mlm_project.Payouts.Store.{AuditContext}
use desire_mlm_project.Receipts.Store.{Booking, Demand}
use desire_mlm_project.CostSheet.Types.{CostSheetInput, CostSheetResult, base_price}
use desire_mlm_project.CostSheet.Totals.{total_amount}
use desire_mlm_project.PaymentPlans.Plans.{milestones_of}
use desire_mlm_project.PaymentPlans.Schedule.{generate_demand_schedule}
use desire_mlm_project.PaymentPlans.Schedule.Exact.{sum_demands}
use desire_mlm_project.Bookings.Store.{
  draft, BookingRow, BookingStore, BookingCatalogue, BookingError,
}
use desire_mlm_project.Bookings.Confirm.{
  is_draft, sell_unit, freeze_agreement_value, confirm_booking,
}
use desire_mlm_project.Bookings.Confirm.Sells.{confirm_booking_lem}
use desire_mlm_project.Bookings.Confirm.Agrees.{confirm_booking_agrees}

abbrev by_user : ℕ → AuditContext
by_user id = record { org_id = 1; actor_id = some id }

abbrev empty : {A : Type 0} → Table A
empty = record { ids = []; row = λ k. none }

abbrev booking : BookingRow ℤ
booking = record {
  org_id = 1;
  project_id = 5;
  unit_id = 1;
  booking_number = 1;
  booking_date = 200;
  status = draft;
  selling_associate_id = 8;
  price_list_id = 91;
  base_amount = pos 0;
  plc_amount = pos 0;
  other_charges_amount = pos 0;
  discount_amount = pos 10_000;
  stamp_duty_amount = pos 0;
  registration_amount = pos 0;
  commissionable_value = pos 0;
  price_override = none;
  saleable_area_at_booking = pos 10_000;
  confirmed_at = none;
  confirmed_by_id = none;
}

abbrev money : Booking ℤ
money = record {
  org_id = 1;
  project_id = 5;
  selling_associate_id = 8;
  agreement_value = pos 0;
  credit_balance = pos 0;
  payment_plan_id = some 81;
}

abbrev unit : InventoryUnit
unit = record { status = held; project_id = 5; current_hold_id = some 77 }

abbrev hold : UnitHold
hold = record {
  org_id = 1;
  unit_id = 1;
  associate_id = 8;
  lead_id = none;
  expires_at = 5000;
  extension_count = 0;
  released_at = none;
  release_reason = none;
  released_by_id = none;
}

-- 100.00 square feet at 50.00
abbrev input : CostSheetInput ℤ
input = record {
  saleable_area = pos 10_000;
  carpet_area = none;
  base_rate = pos 5000;
  plc_tags = [];
  plc_charges_by_tag = λ tag. none;
  other_charges = [];
  discount = pos 0;
  charge_heads =
      record {
        code = 1;
        name = 11;
        category = base_price;
        counts_toward_commission = true;
        display_order = 1;
      }
      ∷ [];
  price_override = none;
}

abbrev catalogue : BookingCatalogue ℤ
catalogue = record {
  pricing = λ org unit list. some input;
  ledger = record {
    booking = λ id. none;
    active_scheme = λ project date. none;
    org_snapshot = λ org. record {
      hierarchy_history = λ id. none;
      grade_history = λ id. none;
      associates = λ id. none;
    };
    role_codes = λ actor. [];
    associate_of_user = λ user. none;
    placements = [];
    may_read = λ actor. false;
    may_resolve = λ actor. false;
  };
  may_confirm = λ actor project. actor == 3;
}

abbrev start : BookingStore ℤ
start = record {
  bookings = insert 51 booking empty;
  inventory = record {
    units = insert 1 unit empty;
    holds = insert 77 hold empty;
    history = [];
    audit_log = [];
  };
  plans = record {
    plans = empty;
    milestones =
        (
          1,
          record {
            payment_plan_id = 81;
            sequence = 1;
            label = 101;
            pct_of_agreement_value = pos 10_000;
            due_days_offset = 15;
          },
        )
        ∷ [];
    collections = record {
      receipts = empty;
      allocations = [];
      demands = empty;
      bookings = insert 51 money empty;
      entries = empty;
      releases = [];
      audit_log = [];
    };
    audit_log = [];
  };
  ledger = record {
    entries = empty;
    releases = [];
    disputes = empty;
    adjustments = empty;
    audit_log = [];
  };
  cost_sheet_lines = [];
  history = [];
  audit_log = [];
}

abbrev store_or : BookingStore ℤ → Result BookingError (BookingStore ℤ) → BookingStore ℤ
store_or other (ok s) = s
store_or other (err _) = other

unfoldable confirmed_store : BookingStore ℤ
unfolding confirm_booking
confirmed_store =
    store_or start (confirm_booking catalogue start (λ i. i) (λ i. i) 51 1000 (by_user 3))

confirmed :
    confirm_booking catalogue start (λ i. i) (λ i. i) 51 1000 (by_user 3) ≡ ok confirmed_store
unfolding confirmed_store assert_valid_transition
confirmed = refl

-- The agreement value is 5,000.00 less the discount of 100.00.
confirm_booking_agrees_example :
    (sheet : CostSheetResult ℤ) × (demands : List (ℕ × Demand ℤ))
    × (confirmed_store.cost_sheet_lines ≡ [] ++ map (λ line. (51, line)) sheet.lines)
    × (generate_demand_schedule
          (λ i. i)
          51
          1000
          (by_user 3)
          (freeze_agreement_value 51 sheet.agreement_value start.plans)
        ≡ ok (confirmed_store.plans, demands))
    × (length demands ≡ length (milestones_of 81 start.plans))
    × (total_amount sheet.lines ≡ sheet.agreement_value)
    × (sum_demands (pos 0) demands ≡ sheet.agreement_value)
confirm_booking_agrees_example =
    confirm_booking_agrees catalogue start confirmed_store (λ i. i) (λ i. i) 51 1000 81 (by_user 3)
      money refl refl (omega arith) confirmed

confirm_booking_lem_example :
    (b : BookingRow ℤ) × (u : InventoryUnit) × (h : ℕ × UnitHold) × (start.bookings.row 51 ≡ some b)
    × (is_draft b.status ≡ true)
    × (start.inventory.units.row b.unit_id ≡ some u)
    × (held_by h.0 (some u) ≡ true)
    × (start.inventory.holds.row h.0 ≡ some h.1)
    × (is_hold_live h.1 1000 ≡ true)
    × (h.1.associate_id ≡ b.selling_associate_id)
    × (confirmed_store.inventory.units.row b.unit_id ≡ some (sell_unit u))
    × (confirmed_store.inventory.holds.row h.0
        ≡ some (mark_released 1000 converted_to_booking (some 3) h.1))
    × ((k : ℕ)
        → k == b.unit_id ≡ false
        → confirmed_store.inventory.units.row k ≡ start.inventory.units.row k)
    × ((k : ℕ)
        → k == h.0 ≡ false
        → confirmed_store.inventory.holds.row k ≡ start.inventory.holds.row k)
    × ((later : ℕ) (audit' : AuditContext)
        → (problem : BookingError) × (confirm_booking catalogue confirmed_store
              (λ i. i)
              (λ i. i)
              51
              later
              audit'
            ≡ err problem))
confirm_booking_lem_example =
    confirm_booking_lem catalogue start confirmed_store (λ i. i) (λ i. i) 51 1000 (by_user 3)
      confirmed
