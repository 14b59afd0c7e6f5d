-- ===== src/Receipts/Demands/Bounds.antt =====
-- packages/services/src/receipts.ts: allocations never exceed the receipt or the demand.
use desire_mlm_project.Base.{
  ℕ, ◌≡◌, refl, Bool, some, List, [], ◌∷◌, ◌++◌, ◌==◌, arith, inl, inr, Bool-cases, if◌then◌else◌,
}
use desire_mlm_project.Decimal.{Decimal, IsExact, ◌≼◌}
use desire_mlm_project.Receipts.Store.{ReceiptAllocation, Demand, Store}
use desire_mlm_project.Receipts.Demands.{
  Allocating, sum_allocations, allocated_total_for_demand, pays_demand, is_from, new_allocation,
  add_allocation,
}
use desire_mlm_project.Receipts.Demands.Keeps.{Keeps}

module _ {D : Type 0} ⦃d : Decimal D⦄ where
  open d use {zero as nought, plus, minus, less_than_or_equal_to, greater_than}

  abbrev pub allocated_on_receipt : ℕ → Store D → D
  allocated_on_receipt receipt_id s = sum_allocations (is_from receipt_id) nought s.allocations

  pub sum_allocations-add :
      (p : ReceiptAllocation D → Bool) (sum : D) (rest : List (ReceiptAllocation D))
      (a : ReceiptAllocation D)
      → sum_allocations p sum (rest ++ (a ∷ []))
        ≡ (if p a then plus (sum_allocations p sum rest) a.amount else sum_allocations p sum rest)
  unfolding sum_allocations
  sum_allocations-add p sum [] a = refl
  sum_allocations-add p sum (b ∷ rest) a =
      sum_allocations-add p (if p b then plus sum b.amount else sum) rest a

  module _ ⦃x : IsExact D⦄ where
    open x use {eq_of_value, plus_value, minus_value, zero_value, greater_than_value}

    -- No demand has been allocated more than it is for.
    abbrev pub IsWithinDemands : Store D → Type 0
    IsWithinDemands s =
        (k : ℕ) (demand : Demand D)
        → s.demands.row k ≡ some demand
        → allocated_total_for_demand k s.allocations ≼ demand.amount

    -- What is allocated on the receipt and the room left make up its amount, and there is room.
    abbrev pub HasRoom : ℕ → D → Allocating D → Type 0
    HasRoom receipt_id amount (s, room, created) =
        (plus (allocated_on_receipt receipt_id s) room ≡ amount) × (nought ≼ room)

    pub Keeps-IsWithinDemands :
        (s s' : Store D) → Keeps s s' → IsWithinDemands s → IsWithinDemands s'
    Keeps-IsWithinDemands s s' kept within k demand found =
        let (old, was, amount) = kept.amount_kept k demand found in
        rw (kept.allocations_kept, amount) (within k old was)

    pub add_allocation-IsWithinDemands :
        (receipt_id : ℕ) (target : ℕ × D) (s : Store D) (demand : Demand D)
        → IsWithinDemands s
        → s.demands.row target.0 ≡ some demand
        → plus (allocated_total_for_demand target.0 s.allocations) target.1 ≼ demand.amount
        → IsWithinDemands (add_allocation (new_allocation receipt_id target.0 target.1) s)
    add_allocation-IsWithinDemands receipt_id target s demand within found fits k x at =
        elim (Bool-cases (target.0 == k)) [
          | inl same ↦ ground (
            arith,
            sum_allocations-add (pays_demand k) nought s.allocations
                (new_allocation receipt_id target.0 target.1),
          )
          | inr other ↦ ground (
            arith,
            within k x at,
            sum_allocations-add (pays_demand k) nought s.allocations
                (new_allocation receipt_id target.0 target.1),
          )
        ]
