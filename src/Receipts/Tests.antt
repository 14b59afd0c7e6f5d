-- ===== src/Receipts/Tests.antt =====
-- One receipt: 41, of 1,000.00 for booking 51, entered by user 3; demand 61 is for 600.00.
use desire_mlm_project.Base.{
  ℕ, ◌≡◌, ◌≢◌, refl, true, false, none, some, List, [], ◌∷◌, arith, ok, err, Result, ◌==◌, any,
}
use desire_mlm_project.Commission.Release.{compute_release, release_target}
use desire_mlm_project.Commission.Entries.{round2}
use desire_mlm_project.Paise.{ℤ, pos, paise_decimal, paise_exact}
use desire_mlm_project.Table.{Table}
use desire_mlm_project.Commission.Release.{resolve_milestone_cumulative_pct, max_fired}
use desire_mlm_project.Payouts.Store.{accrued, AuditContext}
use desire_mlm_project.Receipts.Store.{
  entered, verified, raised, pro_rata_collection, Receipt, ReceiptAllocation, Demand, Booking,
  EarnedEntry, HierarchyPath, Store, Catalogue, ReceiptError,
}
use desire_mlm_project.Receipts.Release.{
  release_commission_for_booking, sum_cleared, release_pro_rata, sum_releases,
  release_milestone_commission, release_milestones, release_entry,
}
use desire_mlm_project.Receipts.Demands.{
  allocate_receipt, allocate_targets, allocate_target, check_target, sync_demand_status,
  sum_allocations, receipt_for, resolve_oldest_unpaid_first, take_oldest,
}
use desire_mlm_project.Receipts.Verify.{
  clear_receipt, clearance, verify_receipt, verification, is_seller_or_upline, is_in_scope,
}
use desire_mlm_project.Receipts.Verify.Clear.{clear_receipt_lem}
use desire_mlm_project.Receipts.Verify.Gate.{
  verify_receipt_lem, verify_receipt_unplaced, verify_receipt_once,
}

abbrev receipt : Receipt ℤ
receipt = record {
  org_id = 1;
  booking_id = 51;
  receipt_number = 1;
  amount = pos 100_000;
  status = entered;
  received_on = 5;
  cleared_on = none;
  entered_by_id = 3;
  verified_by_id = none;
  verified_at = none;
}

abbrev demand : Demand ℤ
demand = record {
  org_id = 1;
  booking_id = 51;
  sequence = 1;
  milestone_ref = none;
  description = 101;
  amount = pos 60_000;
  due_date = 9;
  raised_at = some 4;
  status = raised;
  waived_by_id = none;
  waived_at = none;
  waive_reason = none;
}

abbrev booking : Booking ℤ
booking = record {
  org_id = 1;
  project_id = 5;
  selling_associate_id = 8;
  agreement_value = pos 1_000_000;
  credit_balance = pos 0;
  payment_plan_id = none;
}

abbrev earned : EarnedEntry ℤ
earned = record { booking_id = 51; scheme_id = 71; status = accrued; gross_amount = pos 500_000 }

abbrev single : {A : Type 0} → ℕ → A → Table A
single id a = record { ids = id ∷ []; row = λ k. elim (k == id) [ true ↦ some a | false ↦ none ] }

abbrev start : Store ℤ
start = record {
  receipts = single 41 receipt;
  allocations = [];
  demands = single 61 demand;
  bookings = single 51 booking;
  entries = single 11 earned;
  releases = [];
  audit_log = [];
}

-- User 4 is associate 9; associate 8, the seller, stands under associate 7.
abbrev catalogue : Catalogue ℤ
catalogue = record {
  schedule = λ id. some (record { mode = pro_rata_collection; slabs = [] });
  associate_of_user = λ user. elim (user == 4) [ true ↦ some 9 | false ↦ none ];
  current_placement = λ associate. some (record { associate_id = associate; path = 7 ∷ [] });
  may_enter = λ actor project. true;
  may_verify = λ actor project. true;
}

abbrev by_user : ℕ → AuditContext
by_user id = record { org_id = 1; actor_id = some id }

abbrev after_of : Result ReceiptError (Store ℤ) → Store ℤ
after_of (ok s) = s
after_of (err e) = start

abbrev checked : Store ℤ
checked = after_of (verify_receipt catalogue start 41 (by_user 4) 100)

verify_receipt-start : verify_receipt catalogue start 41 (by_user 4) 100 ≡ ok checked
unfolding verify_receipt receipt_for is_seller_or_upline is_in_scope
verify_receipt-start = refl

verify_receipt_lem_example :
    (actor : ℕ) × (r : Receipt ℤ) × (b : Booking ℤ) × (some 4 ≡ some actor)
    × (start.receipts.row 41 ≡ some r)
    × (start.bookings.row r.booking_id ≡ some b)
    × (catalogue.may_verify actor b.project_id ≡ true)
    × (r.status ≡ entered)
    × (r.entered_by_id ≢ actor)
    × ((associate : ℕ) (placement : HierarchyPath)
        → catalogue.associate_of_user actor ≡ some associate
        → catalogue.current_placement b.selling_associate_id ≡ some placement
        → (b.selling_associate_id ≢ associate)
          × (any (λ id. id == associate) placement.path ≡ false))
    × (checked.receipts.row 41 ≡ some (verification actor 100 r))
    × ((k : ℕ) → k ≢ 41 → checked.receipts.row k ≡ start.receipts.row k)
verify_receipt_lem_example =
    verify_receipt_lem catalogue start 41 (by_user 4) 100 (λ seller placement found. ground arith)
      verify_receipt-start

-- User 4 is the seller here, whose placement was closed.
abbrev without_placement : Catalogue ℤ
without_placement = record catalogue {
  associate_of_user = λ user. some 8;
  current_placement = λ associate. none;
}

receipt_for-start : receipt_for without_placement start 41 (by_user 4) ≡ ok (4, receipt, booking)
unfolding receipt_for
receipt_for-start = refl

verify_receipt_unplaced_example :
    (after : Store ℤ) × (verify_receipt without_placement start 41 (by_user 4) 100 ≡ ok after)
    × (after.receipts.row 41 ≡ some (verification 4 100 receipt))
verify_receipt_unplaced_example =
    verify_receipt_unplaced without_placement start 41 (by_user 4) 100 receipt_for-start refl
      (λ same. ground arith) refl

verify_receipt_once_example :
    (e : ReceiptError) × (verify_receipt catalogue checked 41 (by_user 6) 101 ≡ err e)
verify_receipt_once_example =
    verify_receipt_once catalogue start 41 (by_user 4) 100 (by_user 6) 101 verify_receipt-start

abbrev verified_start : Store ℤ
verified_start = record start { receipts = single 41 (verification 4 100 receipt) }

abbrev allocated_of :
    Result ReceiptError (Store ℤ × List (ReceiptAllocation ℤ))
    → Store ℤ × List (ReceiptAllocation ℤ)
allocated_of (ok a) = a
allocated_of (err e) = (start, [])

abbrev allocated : Store ℤ × List (ReceiptAllocation ℤ)
allocated = allocated_of (allocate_receipt catalogue verified_start 41 none (by_user 4))

-- After the allocation of 600.00 the receipt is cleared, which releases 6 % of the entry.
abbrev cleared_store : Store ℤ
cleared_store = after_of (clear_receipt catalogue allocated.0 41 (by_user 4) 200)

clear_receipt-allocated : clear_receipt catalogue allocated.0 41 (by_user 4) 200 ≡ ok cleared_store
unfolding clear_receipt release_commission_for_booking sum_cleared release_pro_rata compute_release
    release_target round2 sum_releases allocate_receipt allocate_targets allocate_target
    check_target sync_demand_status sum_allocations receipt_for resolve_oldest_unpaid_first
    take_oldest release_milestone_commission release_milestones release_entry
    resolve_milestone_cumulative_pct max_fired
clear_receipt-allocated = refl

clear_receipt_lem_example :
    (r : Receipt ℤ) × (allocated.0.receipts.row 41 ≡ some r)
    × (r.status ≡ verified)
    × (cleared_store.receipts.row 41 ≡ some (clearance 200 r))
    × ((k : ℕ) → k ≢ 41 → cleared_store.receipts.row k ≡ allocated.0.receipts.row k)
    × (cleared_store.allocations ≡ allocated.0.allocations)
    × (cleared_store.demands ≡ allocated.0.demands)
    × ((e : ReceiptError) × (clear_receipt catalogue cleared_store 41 (by_user 6) 201 ≡ err e))
clear_receipt_lem_example =
    clear_receipt_lem catalogue allocated.0 41 (by_user 4) 200 (by_user 6) 201
      clear_receipt-allocated

released_amount : sum_releases 11 paise_decimal.zero cleared_store.releases ≡ pos 30_000
unfolding clear_receipt release_commission_for_booking sum_cleared release_pro_rata compute_release
    release_target round2 sum_releases allocate_receipt allocate_targets allocate_target
    check_target sync_demand_status sum_allocations receipt_for resolve_oldest_unpaid_first
    take_oldest release_milestone_commission release_milestones release_entry
    resolve_milestone_cumulative_pct max_fired
released_amount = refl
