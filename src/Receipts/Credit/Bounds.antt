-- ===== src/Receipts/Credit/Bounds.antt =====
-- packages/services/src/receipts.ts: a credit that is applied pays no demand beyond what it is for.
use desire_mlm_project.Base.{
  ℕ, ◌≡◌, sym, ap, ◌∙◌, true, ◌&&◌, some, List, [], ◌∷◌, arith, inl, inr, Option-cases, Bool-cases,
  ==-refl, if◌then◌else◌, ok, >>=-eq-ok, or_throw,
}
use mathlib.Core.Path.{subst}
use desire_mlm_project.Decimal.{Decimal, IsExact, ◌≼◌}
use desire_mlm_project.Receipts.Store.{Receipt, Demand, Store, Catalogue, booking_not_found}
use desire_mlm_project.Receipts.Demands.{
  allocated_total_for_demand, pays_demand, new_allocation, add_allocation, room_of,
}
use desire_mlm_project.Receipts.Demands.Bounds.{
  IsWithinDemands, Keeps-IsWithinDemands, add_allocation-IsWithinDemands, sum_allocations-add,
}
use desire_mlm_project.Receipts.Demands.Keeps.{sync_demand_status-Keeps}
use desire_mlm_project.Receipts.Credit.{
  take_from_receipts, take_credit, settle_credit, cleared_receipts_of, credit_demand,
  apply_credit_balance_to_new_demand,
}

module _ {D : Type 0} ⦃d : Decimal D⦄ ⦃x : IsExact D⦄ where
  open d use {zero as nought, plus, minus, min, greater_than, less_than_or_equal_to}
  open x use {plus_value, minus_value, less_than_or_equal_to_value, min_lem}

  min-le : (a b : D) → min a b ≼ b
  min-le a b = ground (arith, min_lem a b, less_than_or_equal_to_value a b)

  min-le_left : (a b : D) → min a b ≼ a
  min-le_left a b = ground (arith, min_lem a b, less_than_or_equal_to_value a b)

  allocated-add :
      (demand_id receipt_id : ℕ) (amount : D) (s : Store D)
      → allocated_total_for_demand demand_id
          (add_allocation (new_allocation receipt_id demand_id amount) s).allocations
        ≡ plus (allocated_total_for_demand demand_id s.allocations) amount
  allocated-add demand_id receipt_id amount s =
      let a = new_allocation receipt_id demand_id amount in
      let paid = allocated_total_for_demand demand_id s.allocations in
      sum_allocations-add (pays_demand demand_id) nought s.allocations a
      ∙ ap (λ b. if b && true then plus paid amount else paid) (==-refl demand_id)

  take_from_receipts-IsWithin :
      (demand_id : ℕ) (demand : Demand D) (rs : List (ℕ × Receipt D)) (s : Store D)
      (remaining applied : D)
      → IsWithinDemands s
      → s.demands.row demand_id ≡ some demand
      → plus (allocated_total_for_demand demand_id s.allocations) remaining ≼ demand.amount
      → IsWithinDemands (take_from_receipts demand_id rs s remaining applied).0
  unfolding take_from_receipts
  take_from_receipts-IsWithin demand_id demand [] s remaining applied within found fits = within
  take_from_receipts-IsWithin demand_id demand (r ∷ rs) s remaining applied within found fits =
      let room = room_of r.0 r.1 s in
      let taken = min room remaining in
      let paid = allocated_total_for_demand demand_id s.allocations in
      elim (Bool-cases (less_than_or_equal_to remaining nought)) [
        | inl used_up ↦ rw used_up within
        | inr more ↦ elim (Bool-cases (less_than_or_equal_to room nought)) [
          | inl no_room ↦
              rw (more, no_room)
                (take_from_receipts-IsWithin demand_id demand rs s remaining applied within found
                  fits)
          | inr has_room ↦
              rw (more, has_room)
                (take_from_receipts-IsWithin demand_id demand rs
                  (add_allocation (new_allocation r.0 demand_id taken) s) (minus remaining taken)
                  (plus applied taken)
                  (add_allocation-IsWithinDemands r.0 (demand_id, taken) s demand within found
                    (omega (
                      arith,
                      fits,
                      min-le room remaining,
                      plus_value paid taken,
                      plus_value paid remaining,
                    )))
                  found
                  (subst (λ t. plus t (minus remaining taken) ≼ demand.amount)
                    (sym (allocated-add demand_id r.0 taken s))
                    (omega (
                      arith,
                      fits,
                      plus_value paid taken,
                      plus_value paid remaining,
                      minus_value remaining taken,
                      plus_value (plus paid taken) (minus remaining taken),
                    ))))
        ]
      ]

  settle_credit-IsWithin :
      (c : Catalogue D) (booking_id demand_id : ℕ) (s : Store D) (applied : D) {after : Store D}
      → IsWithinDemands s
      → settle_credit c booking_id demand_id (s, applied) ≡ ok after
      → IsWithinDemands after
  settle_credit-IsWithin c booking_id demand_id s applied {after} within h =
      elim (Bool-cases (greater_than applied nought)) [
        | inl some_applied ↦
            Keeps-IsWithinDemands (take_credit booking_id applied s) after
              (sync_demand_status-Keeps c demand_id (take_credit booking_id applied s)
                (ground arith))
              within
        | inr nothing ↦ subst IsWithinDemands {x = s} {y = after} (ground arith) within
      ]

  credit_demand-IsWithin :
      (c : Catalogue D) (booking_id demand_id : ℕ) (credit : D) (demand : Demand D) (s : Store D)
      {after : Store D}
      → IsWithinDemands s
      → s.demands.row demand_id ≡ some demand
      → credit_demand c booking_id demand_id credit demand s ≡ ok after
      → IsWithinDemands after
  unfolding credit_demand
  credit_demand-IsWithin c booking_id demand_id credit demand s {after} within found h =
      let paid = allocated_total_for_demand demand_id s.allocations in
      let outstanding = minus demand.amount paid in
      let remaining = min credit outstanding in
      let rs = cleared_receipts_of booking_id s in
      let taken = take_from_receipts demand_id rs s remaining nought in
      elim (Bool-cases (less_than_or_equal_to remaining nought)) [
        | inl nothing ↦ subst IsWithinDemands {x = s} {y = after} (ground arith) within
        | inr due ↦
            settle_credit-IsWithin c booking_id demand_id taken.0 taken.1 {after = after}
              (take_from_receipts-IsWithin demand_id demand rs s remaining nought within found (
                omega (
                  arith,
                  min-le credit outstanding,
                  minus_value demand.amount paid,
                  plus_value paid remaining,
                )))
              (ground arith)
      ]

  -- No demand is allocated more than it is for after a credit was applied, if none was before.
  pub apply_credit_balance-IsWithin :
      (c : Catalogue D) (booking_id demand_id : ℕ) (s : Store D) {after : Store D}
      → IsWithinDemands s
      → apply_credit_balance_to_new_demand c booking_id demand_id s ≡ ok after
      → IsWithinDemands after
  unfolding apply_credit_balance_to_new_demand
  apply_credit_balance-IsWithin c booking_id demand_id s {after} within h =
      let (booking, _, credited) =
        >>=-eq-ok (or_throw (s.bookings.row booking_id) booking_not_found) _ h in
      let credit = booking.credit_balance in
      elim (Bool-cases (less_than_or_equal_to credit nought)) [
        | inl no_credit ↦ subst IsWithinDemands {x = s} {y = after} (ground arith) within
        | inr has_credit ↦ elim (Option-cases (s.demands.row demand_id)) [
          | inl missing ↦ absurd (ground arith)
          | inr (demand, found) ↦
              credit_demand-IsWithin c booking_id demand_id credit demand s {after = after} within
                found (ground arith)
        ]
      ]
