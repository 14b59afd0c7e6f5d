-- ===== src/Receipts/Credit/Keeps.antt =====
-- packages/services/src/receipts.ts: applying a credit makes no demand SCHEDULED.
use desire_mlm_project.Base.{
  ℕ, ◌≡◌, refl, sym, ap, ◌∙◌, List, [], ◌∷◌, arith, inl, inr, Option-cases, Bool-cases, ok,
  >>=-eq-ok, or_throw,
}
use desire_mlm_project.Table.{Table}
use desire_mlm_project.Decimal.{Decimal}
use desire_mlm_project.Receipts.Store.{Receipt, Demand, Store, Catalogue, booking_not_found}
use desire_mlm_project.Receipts.Demands.{
  add_allocation, new_allocation, room_of, allocated_total_for_demand,
}
use desire_mlm_project.Receipts.Demands.Keeps.{NoneScheduledAnew, sync_demand_status-Keeps}
use desire_mlm_project.Receipts.Credit.{
  take_from_receipts, take_credit, settle_credit, cleared_receipts_of, credit_demand,
  apply_credit_balance_to_new_demand,
}

module _ {D : Type 0} ⦃d : Decimal D⦄ where
  open d use {zero as nought, plus, minus, min, greater_than, less_than_or_equal_to}

  none_anew : (s s' : Store D) → s'.demands ≡ s.demands → NoneScheduledAnew s s'
  none_anew s s' e k x' h p = (x', ap (λ (t : Table (Demand D)). t.row k) (sym e) ∙ h, p)

  take_from_receipts-demands :
      (demand_id : ℕ) (rs : List (ℕ × Receipt D)) (s : Store D) (remaining applied : D)
      → (take_from_receipts demand_id rs s remaining applied).0.demands ≡ s.demands
  unfolding take_from_receipts
  take_from_receipts-demands demand_id [] s remaining applied = refl
  take_from_receipts-demands demand_id (r ∷ rs) s remaining applied =
      let room = room_of r.0 r.1 s in
      let taken = min room remaining in
      elim (Bool-cases (less_than_or_equal_to remaining nought)) [
        | inl used_up ↦ rw used_up refl
        | inr more ↦ elim (Bool-cases (less_than_or_equal_to room nought)) [
          | inl no_room ↦
              rw (more, no_room) (take_from_receipts-demands demand_id rs s remaining applied)
          | inr has_room ↦
              rw (more, has_room)
                (take_from_receipts-demands demand_id rs
                  (add_allocation (new_allocation r.0 demand_id taken) s) (minus remaining taken)
                  (plus applied taken))
        ]
      ]

  settle_credit-Keeps :
      (c : Catalogue D) (booking_id demand_id : ℕ) (s : Store D) (applied : D) {after : Store D}
      → settle_credit c booking_id demand_id (s, applied) ≡ ok after
      → NoneScheduledAnew s after
  settle_credit-Keeps c booking_id demand_id s applied {after} h =
      elim (Bool-cases (greater_than applied nought)) [
        | inl some_applied ↦
            (sync_demand_status-Keeps c demand_id (take_credit booking_id applied s) {s' = after}
              (ground arith)).raised_kept
        | inr nothing ↦ none_anew s after (ground arith)
      ]

  credit_demand-Keeps :
      (c : Catalogue D) (booking_id demand_id : ℕ) (credit : D) (demand : Demand D) (s : Store D)
      {after : Store D}
      → credit_demand c booking_id demand_id credit demand s ≡ ok after
      → NoneScheduledAnew s after
  unfolding credit_demand
  credit_demand-Keeps c booking_id demand_id credit demand s {after} h k x' at unraised =
      let remaining =
        min credit (minus demand.amount (allocated_total_for_demand demand_id s.allocations)) in
      let rs = cleared_receipts_of booking_id s in
      let taken = take_from_receipts demand_id rs s remaining nought in
      elim (Bool-cases (less_than_or_equal_to remaining nought)) [
        | inl nothing ↦ none_anew s after (ground arith) k x' at unraised
        | inr due ↦
            let (x, at_x, p) =
              settle_credit-Keeps c booking_id demand_id taken.0 taken.1 {after = after}
                (ground arith) k x' at unraised in
            none_anew s taken.0 (take_from_receipts-demands demand_id rs s remaining nought) k x
              at_x p
      ]

  pub apply_credit_balance-Keeps :
      (c : Catalogue D) (booking_id demand_id : ℕ) (s : Store D) {after : Store D}
      → apply_credit_balance_to_new_demand c booking_id demand_id s ≡ ok after
      → NoneScheduledAnew s after
  unfolding apply_credit_balance_to_new_demand
  apply_credit_balance-Keeps c booking_id demand_id s {after} h =
      let (booking, _, credited) =
        >>=-eq-ok (or_throw (s.bookings.row booking_id) booking_not_found) _ h in
      let credit = booking.credit_balance in
      elim (Bool-cases (less_than_or_equal_to credit nought)) [
        | inl no_credit ↦ none_anew s after (ground arith)
        | inr has_credit ↦ elim (Option-cases (s.demands.row demand_id)) [
          | inl missing ↦ absurd (ground arith)
          | inr (demand, found) ↦
              credit_demand-Keeps c booking_id demand_id credit demand s {after = after}
                (ground arith)
        ]
      ]
