-- ===== src/Receipts/Demands.antt =====
-- packages/services/src/receipts.ts: what a demand has been paid (`allocatedTotalForDemand`,
-- `syncDemandStatus`), and allocating a receipt to demands (`allocateReceipt`,
-- `resolveOldestUnpaidFirst`).
pub mod Keeps
pub mod Bounds
use desire_mlm_project.Base.{
  sort_by, ℕ, Bool, true, false, not, ◌&&◌, ◌||◌, Option, none, some, List, [], ◌∷◌, ◌++◌, ◌==◌,
  leb, if◌then◌else◌, Result, ok, err, ◌>>=◌, ◌>>◌, or_throw, throw_if,
}
use desire_mlm_project.Decimal.{Decimal}
use desire_mlm_project.Table.{Table, update, select}
use desire_mlm_project.Payouts.Store.{AuditContext}
use desire_mlm_project.Receipts.Store.{
  ReceiptStatus, verified, cleared, DemandStatus, scheduled, raised, partially_paid, paid, overdue,
  waived, Receipt, ReceiptAllocation, Demand, Booking, receipt_allocated, Store, Catalogue,
  ReceiptError, actor_required, other_organisation, not_permitted, booking_not_found,
  receipt_not_found, allocation_exceeds_receipt, demand_not_found, invalid_receipt_state,
  demand_not_raised, allocation_exceeds_demand,
}
use desire_mlm_project.Receipts.Release.{is_unreversed, release_milestone_commission}

abbrev pub status_number : DemandStatus → ℕ
status_number scheduled = 0
status_number raised = 1
status_number partially_paid = 2
status_number paid = 3
status_number overdue = 4
status_number waived = 5

abbrev pub takes_payment : DemandStatus → Bool
takes_payment raised = true
takes_payment partially_paid = true
takes_payment _ = false

abbrev pub takes_allocations : ReceiptStatus → Bool
takes_allocations verified = true
takes_allocations cleared = true
takes_allocations _ = false

module _ {D : Type 0} where
  -- The receipt of the caller's organisation, with its booking, that the caller may verify.
  unfoldable pub receipt_for :
      Catalogue D → Store D → ℕ → AuditContext → Result ReceiptError (ℕ × Receipt D × Booking D)
  receipt_for c s receipt_id audit = do
    actor ← or_throw audit.actor_id actor_required
    receipt ← or_throw (s.receipts.row receipt_id) receipt_not_found
    throw_if (not (receipt.org_id == audit.org_id)) other_organisation
    booking ← or_throw (s.bookings.row receipt.booking_id) booking_not_found
    throw_if (not (c.may_verify actor booking.project_id)) not_permitted
    ok (actor, receipt, booking)

-- What the loop over the targets has done: the store, the room left and the allocations created.
abbrev pub Allocating : Type 0 → Type 0
Allocating D = Store D × D × List (ReceiptAllocation D)

module _ {D : Type 0} ⦃d : Decimal D⦄ where
  open d use {
    zero as nought, plus, minus, min, greater_than, greater_than_or_equal_to, less_than_or_equal_to,
  }

  abbrev pub pays_demand : ℕ → ReceiptAllocation D → Bool
  pays_demand demand_id a = a.demand_id == demand_id && is_unreversed a.reversed_at

  abbrev pub is_from : ℕ → ReceiptAllocation D → Bool
  is_from receipt_id a = a.receipt_id == receipt_id && is_unreversed a.reversed_at

  -- `rows.reduce` over the allocations that pass the test
  unfoldable pub sum_allocations : (ReceiptAllocation D → Bool) → D → List (ReceiptAllocation D) → D
  sum_allocations p sum [] = sum
  sum_allocations p sum (a ∷ rest) = sum_allocations p (if p a then plus sum a.amount else sum) rest

  abbrev pub allocated_total_for_demand : ℕ → List (ReceiptAllocation D) → D
  allocated_total_for_demand demand_id = sum_allocations (pays_demand demand_id) nought

  abbrev pub next_status : (allocated owed : D) → DemandStatus
  next_status allocated owed =
      if greater_than_or_equal_to allocated owed && greater_than owed nought
      then paid
      else if greater_than allocated nought
      then partially_paid
      else raised

  abbrev pub set_status : ℕ → DemandStatus → Store D → Store D
  set_status demand_id status s = record s {
    demands = update demand_id (λ (x : Demand D). record x { status = status }) s.demands;
  }

  abbrev pub sync_to :
      Catalogue D → ℕ → Demand D → DemandStatus → Store D → Result ReceiptError (Store D)
  sync_to c demand_id demand status s =
      if status_number demand.status == status_number waived
      then ok s
      else if status_number status == status_number demand.status
      then ok s
      else if status_number status == status_number paid
      then release_milestone_commission c demand.booking_id demand_id
          (set_status demand_id status s)
      else ok (set_status demand_id status s)

  unfoldable pub sync_demand_status : Catalogue D → ℕ → Store D → Result ReceiptError (Store D)
  unfolding sum_allocations
  sync_demand_status c demand_id s = do
    demand ← or_throw (s.demands.row demand_id) demand_not_found
    sync_to c demand_id demand
        (next_status (allocated_total_for_demand demand_id s.allocations) demand.amount) s

  -- `orderBy: { dueDate: "asc" }`
  abbrev pub sort_by_due_date : List (ℕ × Demand D) → List (ℕ × Demand D)
  sort_by_due_date = sort_by λ x. x.1.due_date

  -- The loop of `resolveOldestUnpaidFirst`.
  unfoldable pub take_oldest : List (ReceiptAllocation D) → D → List (ℕ × Demand D) → List (ℕ × D)
  take_oldest allocations remaining [] = []
  take_oldest allocations remaining (x ∷ xs) =
      let outstanding = minus x.1.amount (allocated_total_for_demand x.0 allocations) in
      let skipped = take_oldest allocations remaining xs in
      let taken = min outstanding remaining in
      let rest = take_oldest allocations (minus remaining taken) xs in
      if less_than_or_equal_to remaining nought
      then []
      else if less_than_or_equal_to outstanding nought
      then skipped
      else (x.0, taken) ∷ rest

  unfoldable pub resolve_oldest_unpaid_first : ℕ → D → Store D → List (ℕ × D)
  unfolding take_oldest
  resolve_oldest_unpaid_first booking_id up_to s = take_oldest s.allocations up_to (
      sort_by_due_date
        (select (λ (x : Demand D). x.booking_id == booking_id && takes_payment x.status) s.demands))

  abbrev pub new_allocation : (receipt_id demand_id : ℕ) → D → ReceiptAllocation D
  new_allocation receipt_id demand_id amount = record {
    receipt_id = receipt_id;
    demand_id = demand_id;
    amount = amount;
    reversed_at = none;
  }

  abbrev pub add_allocation : ReceiptAllocation D → Store D → Store D
  add_allocation a s = record s { allocations = s.allocations ++ (a ∷ []) }

  -- The checks of a target that is not skipped.
  unfoldable pub check_target : ℕ × D → D → Store D → Result ReceiptError (Unit {0})
  unfolding sum_allocations
  check_target target room s = do
    throw_if (greater_than target.1 room) allocation_exceeds_receipt
    demand ← or_throw (s.demands.row target.0) demand_not_found
    throw_if (not (takes_payment demand.status)) (demand_not_raised demand.status)
    throw_if
        (greater_than target.1
          (minus demand.amount (allocated_total_for_demand target.0 s.allocations)))
        (allocation_exceeds_demand target.0)

  abbrev pub with_room :
      D → List (ReceiptAllocation D) → Store D → Result ReceiptError (Allocating D)
  with_room room created s = ok (s, room, created)

  unfoldable pub allocate_target :
      Catalogue D → (receipt_id : ℕ) → ℕ × D → (Allocating D) → Result ReceiptError (Allocating D)
  unfolding check_target sync_demand_status
  allocate_target c receipt_id target (s, room, created) =
      let a = new_allocation receipt_id target.0 target.1 in
      if less_than_or_equal_to target.1 nought
      then ok (s, room, created)
      else check_target target room s
        >> (sync_demand_status c target.0 (add_allocation a s)
            >>= with_room (minus room target.1) (created ++ (a ∷ [])))

  unfoldable pub allocate_targets :
      Catalogue D
      → (receipt_id : ℕ) → List (ℕ × D)
      → (Allocating D)
      → Result ReceiptError (Allocating D)
  unfolding allocate_target
  allocate_targets c receipt_id [] a = ok a
  allocate_targets c receipt_id (t ∷ ts) a =
      allocate_target c receipt_id t a >>= allocate_targets c receipt_id ts

  abbrev pub targets_of : Option (List (ℕ × D)) → List (ℕ × D) → List (ℕ × D)
  targets_of none resolved = resolved
  targets_of (some allocations) resolved = allocations

  -- The room that is left becomes credit, and the audit row is written.
  abbrev pub credit_overflow : (receipt_id booking_id : ℕ) → AuditContext → (Allocating D) → Store D
  credit_overflow receipt_id booking_id audit (s, room, created) = record s {
    bookings =
        if greater_than room nought
        then update booking_id
            (λ (b : Booking D). record b { credit_balance = plus b.credit_balance room }) s.bookings
        else s.bookings;
    audit_log = s.audit_log ++ ((audit, receipt_allocated receipt_id created room) ∷ []);
  }

  abbrev pub room_of : ℕ → Receipt D → Store D → D
  room_of receipt_id receipt s =
      minus receipt.amount (sum_allocations (is_from receipt_id) nought s.allocations)

  unfoldable pub allocate_receipt :
      Catalogue D
      → Store D
      → ℕ
      → Option (List (ℕ × D))
      → AuditContext
      → Result ReceiptError (Store D × List (ReceiptAllocation D))
  unfolding sum_allocations resolve_oldest_unpaid_first allocate_targets receipt_for
  allocate_receipt c s receipt_id allocations audit = do
    (actor, receipt, booking) ← receipt_for c s receipt_id audit
    throw_if (not (takes_allocations receipt.status)) (invalid_receipt_state receipt.status)
    let room = room_of receipt_id receipt s
    let targets = targets_of allocations (resolve_oldest_unpaid_first receipt.booking_id room s)
    (after, left, created) ← allocate_targets c receipt_id targets (s, room, [])
    ok (credit_overflow receipt_id receipt.booking_id audit (after, left, created), created)
