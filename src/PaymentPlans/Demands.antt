-- ===== src/PaymentPlans/Demands.antt =====
-- packages/services/src/payment-plans.ts: `raiseDemand`, `waiveDemand` and `getDemandsForBooking`.
pub mod Lifecycle
use desire_mlm_project.Base.{
  ℕ, Bool, not, ◌&&◌, Option, none, some, List, [], ◌∷◌, ◌++◌, ◌==◌, sort_by, if◌then◌else◌, Result,
  ok, err, ◌>>=◌, ◌>>◌, or_throw, throw_if,
}
use desire_mlm_project.Decimal.{Decimal}
use desire_mlm_project.Table.{update, select}
use desire_mlm_project.Payouts.Store.{AuditContext}
use desire_mlm_project.Receipts.Store.{
  DemandStatus, scheduled, raised, waived, Demand, Booking, ReceiptError,
}
use desire_mlm_project.Receipts.Store as Receipts
use desire_mlm_project.Receipts.Demands.{status_number}
use desire_mlm_project.Receipts.Credit.{apply_credit_balance_to_new_demand}
use desire_mlm_project.PaymentPlans.Store.{
  demand_updated, PlanStore, PlanCatalogue, PlanError, actor_required, other_organisation,
  not_permitted, booking_not_found, demand_not_found, waive_reason_required, demand_not_scheduled,
  receipt_problem,
}

-- An error of the receipts' code passes through.
abbrev pub from_receipts : {A : Type 0} → Result ReceiptError A → Result PlanError A
from_receipts (ok a) = ok a
from_receipts (err problem) = err (receipt_problem problem)

module _ {D : Type 0} where
  -- The demand of the caller's organisation, on which the caller may act.
  unfoldable pub demand_for :
      (permitted : (actor project_id : ℕ) → Bool)
      → PlanStore D
      → (demand_id actor : ℕ) → AuditContext
      → Result PlanError (Demand D)
  demand_for permitted s demand_id actor audit = do
    demand ← or_throw (s.collections.demands.row demand_id) demand_not_found
    booking ← or_throw (s.collections.bookings.row demand.booking_id) booking_not_found
    throw_if (not (demand.org_id == audit.org_id)) other_organisation
    throw_if (not (permitted actor booking.project_id)) not_permitted
    ok demand

  abbrev pub set_demand : ℕ → (Demand D → Demand D) → PlanStore D → PlanStore D
  set_demand demand_id f s = record s {
    collections = record s.collections { demands = update demand_id f s.collections.demands };
  }

  abbrev pub mark_raised : (now : ℕ) → Demand D → Demand D
  mark_raised now x = record x { status = raised; raised_at = some now }

  abbrev pub mark_waived : (actor now reason : ℕ) → Demand D → Demand D
  mark_waived actor now reason x = record x {
    status = waived;
    waived_by_id = some actor;
    waived_at = some now;
    waive_reason = some reason;
  }

  abbrev pub log_demand :
      AuditContext
      → (demand_id : ℕ) → (before after : Demand D) → (reason : Option ℕ) → PlanStore D
      → PlanStore D
  log_demand audit demand_id before after reason s = record s {
    audit_log = s.audit_log ++ ((audit, demand_updated demand_id before after reason) ∷ []);
  }

  abbrev pub with_collections : PlanStore D → Receipts.Store D → Result PlanError (PlanStore D)
  with_collections s collections = ok (record s { collections = collections })

  -- `getDemandsForBooking`, behind its permission check
  abbrev pub get_demands_for_booking : (booking_id org_id : ℕ) → PlanStore D → List (ℕ × Demand D)
  get_demands_for_booking booking_id org_id s =
      sort_by (λ x. x.1.sequence)
        (select (λ (x : Demand D). x.booking_id == booking_id && x.org_id == org_id)
          s.collections.demands)

  -- A blank reason is `none`.
  unfoldable pub waive_demand :
      PlanCatalogue D
      → PlanStore D
      → (demand_id : ℕ) → (reason : Option ℕ) → (now : ℕ) → AuditContext
      → Result PlanError (PlanStore D)
  unfolding demand_for
  waive_demand c s demand_id reason now audit = do
    actor ← or_throw audit.actor_id actor_required
    why ← or_throw reason waive_reason_required
    demand ← demand_for c.may_waive s demand_id actor audit
    ok (
        log_demand audit demand_id demand (mark_waived actor now why demand) (some why)
          (set_demand demand_id (mark_waived actor now why) s))

module _ {D : Type 0} ⦃d : Decimal D⦄ where
  unfoldable pub raise_demand :
      PlanCatalogue D
      → PlanStore D
      → (demand_id now : ℕ) → AuditContext
      → Result PlanError (PlanStore D)
  unfolding demand_for apply_credit_balance_to_new_demand
  raise_demand c s demand_id now audit = do
    actor ← or_throw audit.actor_id actor_required
    demand ← demand_for c.may_raise s demand_id actor audit
    throw_if (not (status_number demand.status == status_number scheduled))
        (demand_not_scheduled demand.status)
    let marked = set_demand demand_id (mark_raised now) s
    credited ←
        from_receipts (
          apply_credit_balance_to_new_demand c.receipts demand.booking_id demand_id
            marked.collections)
        >>= with_collections marked
    updated ← or_throw (credited.collections.demands.row demand_id) demand_not_found
    ok (log_demand audit demand_id demand updated none credited)
