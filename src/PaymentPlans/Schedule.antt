-- ===== src/PaymentPlans/Schedule.antt =====
-- packages/services/src/payment-plans.ts: `generateDemandSchedule`.
pub mod Exact
use desire_mlm_project.Base.{
  ℕ, ◌+◌, ◌*◌, Bool, not, ◌&&◌, Option, none, some, List, [], ◌∷◌, ◌++◌, ◌==◌, sort_by,
  if◌then◌else◌, Result, ok, ◌>>=◌, ◌>>◌, or_throw, throw_if,
}
use desire_mlm_project.Decimal.{Decimal}
use desire_mlm_project.Table.{insert, count}
use desire_mlm_project.Payouts.Store.{AuditContext}
use desire_mlm_project.Receipts.Store.{Demand, Booking, scheduled}
use desire_mlm_project.PaymentPlans.Store.{
  PaymentPlanMilestone, demand_schedule_created, PlanStore, PlanError, booking_not_found,
  duplicate_demand_sequence,
}
use desire_mlm_project.PaymentPlans.Plans.{milestones_of}

-- 24 * 60 * 60_000
abbrev pub milliseconds_per_day : ℕ
milliseconds_per_day = 86_400_000

module _ {D : Type 0} ⦃d : Decimal D⦄ where
  open d use {zero as nought, hundred, plus, minus, mul, div, to_decimal_places2}

  -- The last milestone, after which none follow, takes what is not allocated.
  abbrev pub milestone_amount :
      (agreement_value allocated : D)
      → PaymentPlanMilestone D
      → (following : List (ℕ × PaymentPlanMilestone D)) → D
  milestone_amount agreement_value allocated m [] = minus agreement_value allocated
  milestone_amount agreement_value allocated m (_ ∷ _) =
      to_decimal_places2 (div (mul agreement_value m.pct_of_agreement_value) hundred)

  abbrev pub new_demand :
      (booking_id : ℕ) → Booking D → (now : ℕ) → ℕ × PaymentPlanMilestone D → D → Demand D
  new_demand booking_id booking now m amount = record {
    org_id = booking.org_id;
    booking_id = booking_id;
    sequence = m.1.sequence;
    milestone_ref = some m.0;
    description = m.1.label;
    amount = amount;
    due_date = now + m.1.due_days_offset * milliseconds_per_day;
    raised_at = none;
    status = scheduled;
    waived_by_id = none;
    waived_at = none;
    waive_reason = none;
  }

  abbrev pub is_demand_at : (booking_id sequence : ℕ) → Demand D → Bool
  is_demand_at booking_id sequence x = x.booking_id == booking_id && x.sequence == sequence

  -- `db.demand.create`, which the unique index on the booking and the sequence refuses
  unfoldable pub create_demand : ℕ → Demand D → PlanStore D → Result PlanError (PlanStore D)
  create_demand id x s = do
    throw_if (not (count (is_demand_at x.booking_id x.sequence) s.collections.demands == 0))
        duplicate_demand_sequence
    ok (record s {
      collections = record s.collections { demands = insert id x s.collections.demands };
    })

  -- The loop over the milestones; the row created at index i gets the identifier `new_id i`.
  unfoldable pub schedule_demands :
      (new_id : ℕ → ℕ) (booking_id : ℕ)
      → Booking D
      → (now : ℕ) → List (ℕ × PaymentPlanMilestone D)
      → (index : ℕ) → (allocated : D) → List (ℕ × Demand D)
      → PlanStore D
      → Result PlanError (PlanStore D × List (ℕ × Demand D))
  unfolding create_demand
  schedule_demands new_id booking_id booking now [] index allocated demands s = ok (s, demands)
  schedule_demands new_id booking_id booking now (m ∷ ms) index allocated demands s =
      let amount = milestone_amount booking.agreement_value allocated m.1 ms in
      let x = new_demand booking_id booking now m amount in
      create_demand (new_id index) x s
      >>= schedule_demands new_id booking_id booking now ms (index + 1) (plus allocated amount)
          (demands ++ ((new_id index, x) ∷ []))

  abbrev pub sorted_milestones : ℕ → PlanStore D → List (ℕ × PaymentPlanMilestone D)
  sorted_milestones plan_id s = sort_by (λ m. m.1.sequence) (milestones_of plan_id s)

  abbrev pub log_schedule :
      (booking_id : ℕ)
      → AuditContext
      → PlanStore D × List (ℕ × Demand D)
      → Result PlanError (PlanStore D × List (ℕ × Demand D))
  log_schedule booking_id audit (s, demands) = ok (
    record s {
      audit_log = s.audit_log ++ ((audit, demand_schedule_created booking_id demands) ∷ []);
    },
    demands,
  )

  -- A plan without milestones gives no demands, and no audit row.
  abbrev pub schedule_milestones :
      (new_id : ℕ → ℕ) (booking_id : ℕ)
      → Booking D
      → (now : ℕ) → List (ℕ × PaymentPlanMilestone D)
      → AuditContext
      → PlanStore D
      → Result PlanError (PlanStore D × List (ℕ × Demand D))
  schedule_milestones new_id booking_id booking now [] audit s = ok (s, [])
  schedule_milestones new_id booking_id booking now (m ∷ ms) audit s =
      schedule_demands new_id booking_id booking now (m ∷ ms) 0 nought [] s
      >>= log_schedule booking_id audit

  abbrev pub schedule_booking :
      (new_id : ℕ → ℕ) (booking_id : ℕ)
      → Booking D
      → (now : ℕ) → Option ℕ
      → AuditContext
      → PlanStore D
      → Result PlanError (PlanStore D × List (ℕ × Demand D))
  schedule_booking new_id booking_id booking now none audit s = ok (s, [])
  schedule_booking new_id booking_id booking now (some plan_id) audit s =
      schedule_milestones new_id booking_id booking now (sorted_milestones plan_id s) audit s

  unfoldable pub generate_demand_schedule :
      (new_id : ℕ → ℕ) (booking_id now : ℕ)
      → AuditContext
      → PlanStore D
      → Result PlanError (PlanStore D × List (ℕ × Demand D))
  unfolding schedule_demands
  generate_demand_schedule new_id booking_id now audit s = do
    booking ← or_throw (s.collections.bookings.row booking_id) booking_not_found
    schedule_booking new_id booking_id booking now booking.payment_plan_id audit s
