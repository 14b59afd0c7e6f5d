-- ===== src/Receipts/Credit.antt =====
-- packages/services/src/receipts.ts: `applyCreditBalanceToNewDemand`.
pub mod Bounds
pub mod Keeps
use desire_mlm_project.Base.{
  ℕ, Bool, true, false, ◌&&◌, Option, none, some, List, [], ◌∷◌, ◌==◌, leb, if◌then◌else◌, Result,
  ok, ◌>>=◌, or_throw,
}
use desire_mlm_project.Decimal.{Decimal}
use desire_mlm_project.Table.{update, select}
use desire_mlm_project.Receipts.Store.{
  Receipt, Demand, Booking, Store, Catalogue, ReceiptError, booking_not_found, demand_not_found,
}
use desire_mlm_project.Receipts.Release.{is_cleared}
use desire_mlm_project.Receipts.Demands.{
  sum_allocations, allocated_total_for_demand, room_of, new_allocation, add_allocation,
  sync_demand_status,
}

-- `orderBy: { clearedOn: "asc" }`; PostgreSQL puts a row without the date last.
abbrev pub is_cleared_before : Option ℕ → Option ℕ → Bool
is_cleared_before none none = true
is_cleared_before none (some other) = false
is_cleared_before (some cleared_on) none = true
is_cleared_before (some cleared_on) (some other) = leb cleared_on other

module _ {D : Type 0} where
  abbrev pub insert_by_cleared_on : ℕ × Receipt D → List (ℕ × Receipt D) → List (ℕ × Receipt D)
  insert_by_cleared_on r [] = r ∷ []
  insert_by_cleared_on r (q ∷ qs) =
      let rest = insert_by_cleared_on r qs in
      if is_cleared_before r.1.cleared_on q.1.cleared_on then r ∷ q ∷ qs else q ∷ rest

  abbrev pub sort_by_cleared_on : List (ℕ × Receipt D) → List (ℕ × Receipt D)
  sort_by_cleared_on [] = []
  sort_by_cleared_on (r ∷ rs) = insert_by_cleared_on r (sort_by_cleared_on rs)

module _ {D : Type 0} ⦃d : Decimal D⦄ where
  open d use {zero as nought, plus, minus, min, greater_than, less_than_or_equal_to}

  -- The loop over the cleared receipts: the store, what remains and what has been applied.
  unfoldable pub take_from_receipts :
      (demand_id : ℕ) → List (ℕ × Receipt D) → Store D → (remaining applied : D) → Store D × D
  unfolding sum_allocations
  take_from_receipts demand_id [] s remaining applied = (s, applied)
  take_from_receipts demand_id (r ∷ rs) s remaining applied =
      let room = room_of r.0 r.1 s in
      let taken = min room remaining in
      let skipped = take_from_receipts demand_id rs s remaining applied in
      let rest =
        take_from_receipts demand_id rs (add_allocation (new_allocation r.0 demand_id taken) s)
          (minus remaining taken) (plus applied taken) in
      if less_than_or_equal_to remaining nought
      then (s, applied)
      else if less_than_or_equal_to room nought
      then skipped
      else rest

  abbrev pub take_credit : ℕ → D → Store D → Store D
  take_credit booking_id applied s = record s {
    bookings =
        update booking_id
          (λ (b : Booking D). record b { credit_balance = minus b.credit_balance applied })
          s.bookings;
  }

  abbrev pub settle_credit :
      Catalogue D → (booking_id demand_id : ℕ) → Store D × D → Result ReceiptError (Store D)
  settle_credit c booking_id demand_id (s, applied) =
      if greater_than applied nought
      then sync_demand_status c demand_id (take_credit booking_id applied s)
      else ok s

  abbrev pub cleared_receipts_of : ℕ → Store D → List (ℕ × Receipt D)
  cleared_receipts_of booking_id s =
      sort_by_cleared_on
        (select (λ (r : Receipt D). r.booking_id == booking_id && is_cleared r.status) s.receipts)

  -- What is done with the credit of a booking that has some.
  unfoldable pub credit_demand :
      Catalogue D
      → (booking_id demand_id : ℕ) → D
      → Demand D
      → Store D
      → Result ReceiptError (Store D)
  unfolding sum_allocations take_from_receipts sync_demand_status
  credit_demand c booking_id demand_id credit demand s =
      let outstanding = minus demand.amount (allocated_total_for_demand demand_id s.allocations) in
      let remaining = min credit outstanding in
      if less_than_or_equal_to remaining nought
      then ok s
      else settle_credit c booking_id demand_id
          (take_from_receipts demand_id (cleared_receipts_of booking_id s) s remaining nought)

  abbrev pub credit_booking :
      Catalogue D → (booking_id demand_id : ℕ) → Booking D → Store D → Result ReceiptError (Store D)
  credit_booking c booking_id demand_id booking s =
      if less_than_or_equal_to booking.credit_balance nought
      then ok s
      else (or_throw (s.demands.row demand_id) demand_not_found >>= λ demand.
          credit_demand c booking_id demand_id booking.credit_balance demand s)

  unfoldable pub apply_credit_balance_to_new_demand :
      Catalogue D → (booking_id demand_id : ℕ) → Store D → Result ReceiptError (Store D)
  unfolding credit_demand
  apply_credit_balance_to_new_demand c booking_id demand_id s = do
    booking ← or_throw (s.bookings.row booking_id) booking_not_found
    credit_booking c booking_id demand_id booking s
