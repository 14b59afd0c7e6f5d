-- ===== src/Receipts/Release.antt =====
-- packages/services/src/receipts.ts: releasing commission, on collection (`releaseCommissionForBooking`)
-- and on a paid milestone (`releaseMilestoneCommission`).
use desire_mlm_project.Base.{
  ℕ, Bool, true, false, not, ◌&&◌, Option, none, some, List, [], ◌∷◌, ◌++◌, ◌==◌, any, filter,
  if◌then◌else◌, Result, ok, err, ◌>>=◌,
}
use desire_mlm_project.Decimal.{Decimal}
use desire_mlm_project.Table.{Table, update, select}
use desire_mlm_project.Commission.Types.{ReleaseScheduleSlab}
use desire_mlm_project.Commission.Release.{compute_release, resolve_milestone_cumulative_pct}
use desire_mlm_project.Payouts.Store.{EntryStatus, accrued, payable, reversed}
use desire_mlm_project.Receipts.Store.{
  ReceiptStatus, cleared, DemandStatus, paid, pro_rata_collection, milestone, on_booking, Receipt,
  ReceiptAllocation, Demand, Booking, EarnedEntry, CommissionRelease, PayoutSchedule, Store,
  Catalogue, ReceiptError, duplicate_release,
}

-- the `triggerType`s "COLLECTION_PCT" and "DEMAND_PAID"
abbrev pub collection_pct : ℕ
collection_pct = 0

abbrev pub demand_paid : ℕ
demand_paid = 1

abbrev pub is_unreversed : Option ℕ → Bool
is_unreversed none = true
is_unreversed (some reversed_at) = false

abbrev pub is_cleared : ReceiptStatus → Bool
is_cleared cleared = true
is_cleared _ = false

abbrev pub is_paid : DemandStatus → Bool
is_paid paid = true
is_paid _ = false

abbrev pub is_reversed : EntryStatus → Bool
is_reversed reversed = true
is_reversed _ = false

abbrev pub is_accrued : EntryStatus → Bool
is_accrued accrued = true
is_accrued _ = false

abbrev pub is_ref : Option ℕ → ℕ → Bool
is_ref none ref = false
is_ref (some milestone_ref) ref = milestone_ref == ref

module _ {D : Type 0} ⦃d : Decimal D⦄ where
  open d use {
    zero as nought, hundred, plus, mul, div, to_decimal_places2, to_decimal_places4,
    less_than_or_equal_to, is_zero,
  }

  abbrev pub releases_entry : ℕ → CommissionRelease D → Bool
  releases_entry entry_id r = r.entry_id == entry_id && is_unreversed r.reversed_at

  -- `releases.reduce`
  unfoldable pub sum_releases : ℕ → D → List (CommissionRelease D) → D
  sum_releases entry_id sum [] = sum
  sum_releases entry_id sum (r ∷ rs) =
      sum_releases entry_id (if releases_entry entry_id r then plus sum r.amount else sum) rs

  -- `@@unique([entryId, triggerType, triggerRef])`
  abbrev pub has_trigger : (entry_id trigger_type trigger_ref : ℕ) → CommissionRelease D → Bool
  has_trigger entry_id trigger_type trigger_ref r =
      r.entry_id == entry_id && r.trigger_type == trigger_type && r.trigger_ref == trigger_ref

  abbrev pub make_payable : ℕ → EarnedEntry D → Table (EarnedEntry D) → Table (EarnedEntry D)
  make_payable entry_id entry entries =
      if is_accrued entry.status
      then update entry_id (λ (e : EarnedEntry D). record e { status = payable }) entries
      else entries

  abbrev pub delta_of : Store D → ℕ → EarnedEntry D → D → D
  delta_of s entry_id entry pct = compute_release record {
    entry_gross_amount = entry.gross_amount;
    entry_already_released = sum_releases entry_id nought s.releases;
    cumulative_release_pct = pct;
  }

  abbrev pub write_release :
      (trigger_type trigger_ref entry_id : ℕ) → EarnedEntry D → (pct delta : D) → Store D → Store D
  write_release trigger_type trigger_ref entry_id entry pct delta s = record s {
    releases =
        s.releases
        ++ (record {
          entry_id = entry_id;
          trigger_type = trigger_type;
          trigger_ref = trigger_ref;
          cumulative_pct = to_decimal_places4 pct;
          amount = to_decimal_places2 delta;
          reversed_at = none;
        }
            ∷ []);
    entries = make_payable entry_id entry s.entries;
  }

  -- What both loops do with an entry, once the percentage is known.
  unfoldable pub release_entry :
      (trigger_type trigger_ref entry_id : ℕ)
      → EarnedEntry D
      → D
      → Store D
      → Result ReceiptError (Store D)
  unfolding compute_release sum_releases
  release_entry trigger_type trigger_ref entry_id entry pct s =
      let delta = delta_of s entry_id entry pct in
      if less_than_or_equal_to delta nought
      then ok s
      else if any (has_trigger entry_id trigger_type trigger_ref) s.releases
      then err duplicate_release
      else ok (write_release trigger_type trigger_ref entry_id entry pct delta s)

  abbrev pub entries_of : ℕ → Store D → List (ℕ × EarnedEntry D)
  entries_of booking_id s =
      select (λ (e : EarnedEntry D). e.booking_id == booking_id && not (is_reversed e.status))
        s.entries

  abbrev pub is_cleared_receipt : ℕ → Option (Receipt D) → Bool
  is_cleared_receipt booking_id none = false
  is_cleared_receipt booking_id (some r) = r.booking_id == booking_id && is_cleared r.status

  -- The active allocations of the booking's cleared receipts, added up.
  unfoldable pub sum_cleared : Table (Receipt D) → ℕ → D → List (ReceiptAllocation D) → D
  sum_cleared receipts booking_id sum [] = sum
  sum_cleared receipts booking_id sum (a ∷ rest) =
      sum_cleared receipts booking_id
        (if is_unreversed a.reversed_at && is_cleared_receipt booking_id (receipts.row a.receipt_id)
          then plus sum a.amount
          else sum)
        rest

  abbrev pub is_pro_rata : Option (PayoutSchedule D) → Bool
  is_pro_rata none = false
  is_pro_rata (some schedule) = elim schedule.mode [
    | pro_rata_collection ↦ true
    | milestone ↦ false
    | on_booking ↦ false
  ]

  unfoldable pub release_pro_rata :
      Catalogue D → ℕ → D → List (ℕ × EarnedEntry D) → Store D → Result ReceiptError (Store D)
  unfolding release_entry
  release_pro_rata c receipt_id pct [] s = ok s
  release_pro_rata c receipt_id pct (e ∷ es) s =
      (if is_pro_rata (c.schedule e.1.scheme_id)
        then release_entry collection_pct receipt_id e.0 e.1 pct s
        else ok s)
      >>= release_pro_rata c receipt_id pct es

  unfoldable pub release_commission_for_booking :
      Catalogue D → ℕ → Booking D → (receipt_id : ℕ) → Store D → Result ReceiptError (Store D)
  unfolding sum_cleared release_pro_rata
  release_commission_for_booking c booking_id booking receipt_id s =
      let total = sum_cleared s.receipts booking_id nought s.allocations in
      let pct = mul (div total booking.agreement_value) hundred in
      if less_than_or_equal_to booking.agreement_value nought
      then ok s
      else release_pro_rata c receipt_id pct (entries_of booking_id s) s

  -- `firedTriggerRefs`
  abbrev pub fired_by : ℕ → Store D → ℕ → Bool
  fired_by booking_id s ref =
      any (λ (x : ℕ × Demand D). is_ref x.1.milestone_ref ref)
        (select (λ (demand : Demand D). demand.booking_id == booking_id && is_paid demand.status)
          s.demands)

  abbrev pub demand_slabs : Option (PayoutSchedule D) → List (ReleaseScheduleSlab D)
  demand_slabs none = []
  demand_slabs (some schedule) = elim schedule.mode [
    | pro_rata_collection ↦ []
    | milestone ↦
        filter (λ (slab : ReleaseScheduleSlab D). slab.trigger_type == demand_paid) schedule.slabs
    | on_booking ↦ []
  ]

  -- A schedule without such slabs, like one of another mode, gives the percentage 0 and is passed over.
  unfoldable pub release_milestones :
      Catalogue D
      → (demand_id : ℕ) → (ℕ → Bool)
      → List (ℕ × EarnedEntry D)
      → Store D
      → Result ReceiptError (Store D)
  unfolding release_entry resolve_milestone_cumulative_pct
  release_milestones c demand_id fired [] s = ok s
  release_milestones c demand_id fired (e ∷ es) s =
      let pct = resolve_milestone_cumulative_pct (demand_slabs (c.schedule e.1.scheme_id)) fired in
      (if is_zero pct then ok s else release_entry demand_paid demand_id e.0 e.1 pct s)
      >>= release_milestones c demand_id fired es

  unfoldable pub release_milestone_commission :
      Catalogue D → (booking_id demand_id : ℕ) → Store D → Result ReceiptError (Store D)
  unfolding release_milestones
  release_milestone_commission c booking_id demand_id s =
      release_milestones c demand_id (fired_by booking_id s) (entries_of booking_id s) s
