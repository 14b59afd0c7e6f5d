-- ===== src/PaymentPlans/Demands/Lifecycle.antt =====
-- packages/services/src/payment-plans.ts: what raising and waiving a demand do to it.
use mathlib.Core.Path.{subst}
use desire_mlm_project.Base.{
  ℕ, ◌≡◌, refl, sym, ap, ◌∙◌, Bool, true, false, not, some, ◌==◌, arith, inl, inr, Option-cases, ok,
  err, Result-cases, >>=-eq-ok, throw_if->>-eq_ok, or_throw,
}
use desire_mlm_project.Decimal.{Decimal, IsExact, ◌≼◌}
use desire_mlm_project.Payouts.Store.{AuditContext}
use desire_mlm_project.Receipts.Store.{
  DemandStatus, scheduled, raised, partially_paid, paid, overdue, waived, Demand, Booking,
}
use desire_mlm_project.Receipts.Store as Receipts
use desire_mlm_project.Receipts.Demands.{status_number, allocated_total_for_demand}
use desire_mlm_project.Receipts.Demands.Bounds.{IsWithinDemands}
use desire_mlm_project.Receipts.Credit.{apply_credit_balance_to_new_demand}
use desire_mlm_project.Receipts.Credit.Keeps.{apply_credit_balance-Keeps}
use desire_mlm_project.Receipts.Credit.Bounds.{apply_credit_balance-IsWithin}
use desire_mlm_project.PaymentPlans.Store.{
  PlanStore, PlanCatalogue, PlanError, actor_required, demand_not_scheduled,
}
use desire_mlm_project.PaymentPlans.Demands.{
  demand_for, set_demand, mark_raised, mark_waived, log_demand, waive_demand, raise_demand,
}

scheduled_of :
    (status : DemandStatus)
    → not (status_number status == status_number scheduled) ≡ false
    → status ≡ scheduled
scheduled_of scheduled h = refl
scheduled_of raised h = cc
scheduled_of partially_paid h = cc
scheduled_of paid h = cc
scheduled_of overdue h = cc
scheduled_of waived h = cc

module _ {D : Type 0} where
  demand_for-eq_ok :
      (permitted : ℕ → ℕ → Bool) (s : PlanStore D) (demand_id actor : ℕ) (audit : AuditContext)
      {demand : Demand D}
      → demand_for permitted s demand_id actor audit ≡ ok demand
      → (s.collections.demands.row demand_id ≡ some demand) × (demand.org_id ≡ audit.org_id)
  unfolding demand_for
  demand_for-eq_ok permitted s demand_id actor audit {demand} h =
      elim (Option-cases (s.collections.demands.row demand_id)) [
        | inl missing ↦ absurd (ground arith)
        | inr (x, found) ↦ elim (Option-cases (s.collections.bookings.row x.booking_id)) [
          | inl missing ↦ absurd (ground arith)
          | inr (b, is_b) ↦ (ground arith, ground arith)
        ]
      ]

  -- Whatever the demand's status is, PAID and WAIVED included, a permitted actor of its organisation
  -- who gives a reason waives it: that demand becomes WAIVED, with the actor and the reason, and no
  -- other demand and no allocation changes.
  pub waive_demand_lem :
      (c : PlanCatalogue D) (s : PlanStore D) (demand_id reason now actor : ℕ)
      (audit : AuditContext) (demand : Demand D) (booking : Booking D)
      → audit.actor_id ≡ some actor
      → s.collections.demands.row demand_id ≡ some demand
      → s.collections.bookings.row demand.booking_id ≡ some booking
      → demand.org_id ≡ audit.org_id
      → c.may_waive actor booking.project_id ≡ true
      → (after : PlanStore D) × (waive_demand c s demand_id (some reason) now audit ≡ ok after)
        × (after.collections.demands.row demand_id ≡ some (mark_waived actor now reason demand))
        × ((k : ℕ)
            → k == demand_id ≡ false
            → after.collections.demands.row k ≡ s.collections.demands.row k)
        × (after.collections.allocations ≡ s.collections.allocations)
  unfolding waive_demand demand_for
  waive_demand_lem c s demand_id reason now actor audit demand booking is_actor found is_booking org
        permitted =
      (
        log_demand audit demand_id demand (mark_waived actor now reason demand) (some reason)
            (set_demand demand_id (mark_waived actor now reason) s),
        ground arith,
        ground arith,
        λ k other. ground arith,
        refl,
      )

module _ {D : Type 0} ⦃d : Decimal D⦄ where
  raise_demand-eq_ok :
      (c : PlanCatalogue D) (s : PlanStore D) (demand_id now : ℕ) (audit : AuditContext)
      {after : PlanStore D}
      → raise_demand c s demand_id now audit ≡ ok after
      → (demand : Demand D) × (collections : Receipts.Store D) × (s.collections.demands.row
            demand_id
          ≡ some demand)
        × (demand.status ≡ scheduled)
        × (apply_credit_balance_to_new_demand c.receipts demand.booking_id demand_id
              (set_demand demand_id (mark_raised now) s).collections
            ≡ ok collections)
        × (after.collections ≡ collections)
  unfolding raise_demand
  raise_demand-eq_ok c s demand_id now audit {after} h =
      let (actor, _, h1) = >>=-eq-ok (or_throw audit.actor_id actor_required) _ h in
      let (demand, is_demand, h2) =
        >>=-eq-ok (demand_for c.may_raise s demand_id actor audit) _ h1 in
      let (is_scheduled, h3) =
        throw_if->>-eq_ok (not (status_number demand.status == status_number scheduled))
          (demand_not_scheduled demand.status) _ h2 in
      let marked = set_demand demand_id (mark_raised now) s in
      let credit =
        apply_credit_balance_to_new_demand c.receipts demand.booking_id demand_id
          marked.collections in
      elim (Result-cases credit) [
        | inl (problem, refused) ↦ absurd (ground arith)
        | inr (collections, credited) ↦ (
          demand,
          collections,
          (demand_for-eq_ok c.may_raise s demand_id actor audit is_demand).0,
          scheduled_of demand.status (ground arith),
          credited,
          ground arith,
        )
      ]

  -- After a demand was raised, every further attempt to raise it is refused, whoever makes it.
  pub raise_demand_once :
      (c : PlanCatalogue D) (s : PlanStore D) (demand_id now : ℕ) (audit : AuditContext)
      (after : PlanStore D)
      → raise_demand c s demand_id now audit ≡ ok after
      → (later : ℕ) (audit' : AuditContext)
      → (problem : PlanError) × (raise_demand c after demand_id later audit' ≡ err problem)
  raise_demand_once c s demand_id now audit after h later audit' =
      elim (Result-cases (raise_demand c after demand_id later audit')) [
        | inl refused ↦ refused
        | inr (last, again) ↦
            let (demand, collections, found, unraised, credited, same) =
              raise_demand-eq_ok c s demand_id now audit h in
            let (demand', _, found', unraised', _, _) =
              raise_demand-eq_ok c after demand_id later audit' again in
            let marked = (set_demand demand_id (mark_raised now) s).collections in
            let (x, at_x, unraised_x) =
              apply_credit_balance-Keeps c.receipts demand.booking_id demand_id marked credited
                demand_id demand'
                (ap (λ (t : Receipts.Store D). t.demands.row demand_id) (sym same) ∙ found')
                unraised' in
            absurd (ground arith)
      ]

  -- Raising a demand, with the credit of its booking applied to it, leaves no demand allocated more
  -- than it is for, if none was.
  pub raise_demand-IsWithin :
      ⦃x : IsExact D⦄ (c : PlanCatalogue D) (s : PlanStore D) (demand_id now : ℕ)
      (audit : AuditContext) (after : PlanStore D)
      → IsWithinDemands s.collections
      → raise_demand c s demand_id now audit ≡ ok after
      → IsWithinDemands after.collections
  raise_demand-IsWithin c s demand_id now audit after within h =
      let (demand, collections, found, _, credited, same) =
        raise_demand-eq_ok c s demand_id now audit h in
      subst IsWithinDemands (sym same) (
        apply_credit_balance-IsWithin c.receipts demand.booking_id demand_id
          (set_demand demand_id (mark_raised now) s).collections
          (λ k x at. elim (Option-cases (s.collections.demands.row k)) [
            | inl missing ↦ absurd (ground arith)
            | inr (y, was) ↦
                let amount : x.amount ≡ y.amount = ground arith in
                subst (λ t. allocated_total_for_demand k s.collections.allocations ≼ t) (sym amount)
                  (within k y was)
          ])
          credited)
