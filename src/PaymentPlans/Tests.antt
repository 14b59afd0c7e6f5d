-- ===== src/PaymentPlans/Tests.antt =====
-- The payments of 81 are 20 per cent and 80 per cent; booking 51 is for 10,000.00 and pays by it.
use desire_mlm_project.Base.{
  ℕ, ◌≡◌, refl, true, false, none, some, List, [], ◌∷◌, ◌==◌, ok, err, Result, length, ◌≤◌, All,
  arith, inl, inr, Bool-cases,
}
use desire_mlm_project.Paise.{ℤ, pos, paise_decimal, paise_exact}
use desire_mlm_project.Table.{Table, insert}
use desire_mlm_project.Payouts.Store.{AuditContext}
use desire_mlm_project.Receipts.Store.{
  Receipt, Booking, Demand, scheduled, paid, cleared, pro_rata_collection,
}
use desire_mlm_project.Receipts.Demands.Bounds.{IsWithinDemands}
use desire_mlm_project.Receipts.Release.{release_milestone_commission}
use desire_mlm_project.Receipts.Demands.{sum_allocations}
use desire_mlm_project.PaymentPlans.Store.{
  CreatePaymentPlanMilestoneInput, CreatePaymentPlanParams, PlanStore, PlanCatalogue, PlanError,
}
use desire_mlm_project.PaymentPlans.Plans.{create_payment_plan, add_milestone, milestones_of}
use desire_mlm_project.PaymentPlans.Plans.Complete.{add_milestone_adds_nothing}
use desire_mlm_project.PaymentPlans.Schedule.{generate_demand_schedule}
use desire_mlm_project.PaymentPlans.Schedule.Exact.{
  IsScheduledFor, sum_demands, generate_demand_schedule_exact,
}
use desire_mlm_project.PaymentPlans.Demands.{raise_demand, waive_demand, mark_waived}
use desire_mlm_project.PaymentPlans.Demands.Lifecycle.{
  waive_demand_lem, raise_demand_once, raise_demand-IsWithin,
}

abbrev by_user : ℕ → AuditContext
by_user id = record { org_id = 1; actor_id = some id }

abbrev empty : {A : Type 0} → Table A
empty = record { ids = []; row = λ k. none }

abbrev booking : Booking ℤ
booking = record {
  org_id = 1;
  project_id = 5;
  selling_associate_id = 8;
  agreement_value = pos 1_000_000;
  credit_balance = pos 0;
  payment_plan_id = some 81;
}

abbrev first_milestone : CreatePaymentPlanMilestoneInput ℤ
first_milestone = record {
  sequence = 1;
  label = 101;
  pct_of_agreement_value = pos 2000;
  due_days_offset = none;
}

abbrev last_milestone : CreatePaymentPlanMilestoneInput ℤ
last_milestone = record {
  sequence = 2;
  label = 102;
  pct_of_agreement_value = pos 8000;
  due_days_offset = some 90;
}

abbrev empty_milestone : CreatePaymentPlanMilestoneInput ℤ
empty_milestone = record {
  sequence = 3;
  label = 103;
  pct_of_agreement_value = pos 0;
  due_days_offset = none;
}

abbrev params : CreatePaymentPlanParams ℤ
params = record {
  code = 91;
  name = 111;
  project_id = some 5;
  milestones = first_milestone ∷ last_milestone ∷ [];
  audit = by_user 3;
}

abbrev catalogue : PlanCatalogue ℤ
catalogue = record {
  receipts = record {
    schedule = λ id. some (record { mode = pro_rata_collection; slabs = [] });
    associate_of_user = λ user. none;
    current_placement = λ associate. none;
    may_enter = λ actor project. true;
    may_verify = λ actor project. true;
  };
  round_pct = λ pct. pct;
  may_write_plans = λ actor project. true;
  may_raise = λ actor project. true;
  may_waive = λ actor project. true;
}

abbrev start : PlanStore ℤ
start = record {
  plans = empty;
  milestones = [];
  collections = record {
    receipts = empty;
    allocations = [];
    demands = empty;
    bookings = insert 51 booking empty;
    entries = empty;
    releases = [];
    audit_log = [];
  };
  audit_log = [];
}

abbrev store_or : PlanStore ℤ → Result PlanError (PlanStore ℤ) → PlanStore ℤ
store_or other (ok s) = s
store_or other (err _) = other

abbrev numbered_from : ℕ → ℕ → ℕ
numbered_from base index = base

unfoldable planned : PlanStore ℤ
unfolding create_payment_plan
planned = store_or start (create_payment_plan catalogue start 81 (λ index. index) params)

-- A third milestone of nothing is accepted.
add_milestone_adds_nothing_example : empty_milestone.pct_of_agreement_value ≡ pos 0
unfolding planned add_milestone
add_milestone_adds_nothing_example =
    add_milestone_adds_nothing catalogue planned 81 7 empty_milestone (by_user 3)
      {after = store_or start (add_milestone catalogue planned 81 7 empty_milestone (by_user 3))}
      refl refl

unfoldable generated : Result PlanError (PlanStore ℤ × List (ℕ × Demand ℤ))
unfolding planned generate_demand_schedule
generated = generate_demand_schedule (λ index. index) 51 1000 (by_user 3) planned

abbrev schedule_or :
    PlanStore ℤ
    → Result PlanError (PlanStore ℤ × List (ℕ × Demand ℤ))
    → PlanStore ℤ × List (ℕ × Demand ℤ)
schedule_or other (ok r) = r
schedule_or other (err _) = (other, [])

generate_demand_schedule_exact_example :
    let demands = (schedule_or start generated).1 in
    (length demands ≡ length (milestones_of 81 planned))
    × All (IsScheduledFor 51) demands
    × (1 ≤ length (milestones_of 81 planned) → sum_demands (pos 0) demands ≡ pos 1_000_000)
unfolding generated
generate_demand_schedule_exact_example =
    generate_demand_schedule_exact (λ index. index) 51 1000 81 (by_user 3) planned
      (schedule_or start generated).0 booking (schedule_or start generated).1 refl refl refl

unfoldable demanded : PlanStore ℤ
unfolding generated
demanded = (schedule_or start generated).0

unfoldable after_raise : PlanStore ℤ
unfolding demanded raise_demand
after_raise = store_or start (raise_demand catalogue demanded 0 2000 (by_user 3))

raise_demand_once_example :
    (problem : PlanError) × (raise_demand catalogue after_raise 0 3000 (by_user 4) ≡ err problem)
unfolding after_raise
raise_demand_once_example =
    raise_demand_once catalogue demanded 0 2000 (by_user 3) after_raise refl 3000 (by_user 4)

-- Demand 61 of 600.00 is due, and booking 51 has a credit of 1,000.00 from receipt 41, which is cleared.
abbrev due : Demand ℤ
due = record {
  org_id = 1;
  booking_id = 51;
  sequence = 1;
  milestone_ref = none;
  description = 101;
  amount = pos 60_000;
  due_date = 9;
  raised_at = none;
  status = scheduled;
  waived_by_id = none;
  waived_at = none;
  waive_reason = none;
}

abbrev receipt : Receipt ℤ
receipt = record {
  org_id = 1;
  booking_id = 51;
  receipt_number = 1;
  amount = pos 100_000;
  status = cleared;
  received_on = 5;
  cleared_on = some 6;
  entered_by_id = 3;
  verified_by_id = some 4;
  verified_at = some 5;
}

abbrev in_credit : PlanStore ℤ
in_credit = record start {
  collections = record start.collections {
    receipts = insert 41 receipt empty;
    demands = insert 61 due empty;
    bookings = insert 51 (record booking { credit_balance = pos 100_000 }) empty;
  };
}

unfoldable credited : PlanStore ℤ
unfolding raise_demand
credited = store_or start (raise_demand catalogue in_credit 61 2000 (by_user 3))

-- The demand is paid from the credit, of which 400.00 is left.
credited_lem :
    (credited.collections.demands.row 61
      ≡ some (record due { status = paid; raised_at = some 2000 }))
    × (credited.collections.bookings.row 51 ≡ some (record booking { credit_balance = pos 40_000 }))
unfolding credited release_milestone_commission
credited_lem = (refl, refl)

in_credit-IsWithinDemands : IsWithinDemands in_credit.collections
unfolding sum_allocations
in_credit-IsWithinDemands k x found = elim (Bool-cases (k == 61)) [
  | inl same ↦ ground arith
  | inr other ↦ absurd (ground arith)
]

raise_demand-IsWithin_example : IsWithinDemands credited.collections
unfolding credited release_milestone_commission
raise_demand-IsWithin_example =
    raise_demand-IsWithin catalogue in_credit 61 2000 (by_user 3) credited in_credit-IsWithinDemands
      refl

-- The demand, paid in full, is waived.
waive_demand_lem_example :
    (after : PlanStore ℤ) × (waive_demand catalogue credited 61 (some 7) 3000 (by_user 3)
      ≡ ok after)
    × (after.collections.demands.row 61
        ≡ some (mark_waived 3 3000 7 (record due { status = paid; raised_at = some 2000 })))
    × ((k : ℕ)
        → k == 61 ≡ false
        → after.collections.demands.row k ≡ credited.collections.demands.row k)
    × (after.collections.allocations ≡ credited.collections.allocations)
unfolding credited release_milestone_commission
waive_demand_lem_example =
    waive_demand_lem catalogue credited 61 7 3000 3 (by_user 3)
      (record due { status = paid; raised_at = some 2000 })
      (record booking { credit_balance = pos 40_000 }) refl refl refl refl refl
