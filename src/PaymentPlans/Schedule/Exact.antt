-- ===== src/PaymentPlans/Schedule/Exact.antt =====
-- packages/services/src/payment-plans.ts: a schedule demands exactly the agreement value.
use mathlib.Core.Path.{subst}
use desire_mlm_project.Base.{
  ℕ, ◌+◌, ◌≡◌, refl, sym, ap, ◌∙◌, none, some, List, [], ◌∷◌, ◌++◌, ◌≤◌, arith, All, All-append,
  length, length-append, length-sort_by, ok, ◌>>=◌, >>=-eq-ok, ok-injective, or_throw,
}
use desire_mlm_project.Decimal.{Decimal, IsExact}
use desire_mlm_project.Decimal.Laws.{plus-minus}
use desire_mlm_project.Payouts.Store.{AuditContext}
use desire_mlm_project.Receipts.Store.{Demand, Booking, scheduled}
use desire_mlm_project.PaymentPlans.Store.{PaymentPlanMilestone, PlanStore, booking_not_found}
use desire_mlm_project.PaymentPlans.Plans.{milestones_of}
use desire_mlm_project.PaymentPlans.Schedule.{
  generate_demand_schedule, schedule_demands, schedule_booking, schedule_milestones,
  sorted_milestones, create_demand, new_demand, milestone_amount,
}

module _ {D : Type 0} ⦃d : Decimal D⦄ where
  open d use {zero as nought, plus, minus}

  -- What the demands are for, added up in order.
  abbrev pub sum_demands : D → List (ℕ × Demand D) → D
  sum_demands sum [] = sum
  sum_demands sum (x ∷ xs) = sum_demands (plus sum x.1.amount) xs

  -- A new demand of the booking, not raised.
  abbrev pub IsScheduledFor : ℕ → ℕ × Demand D → Type 0
  IsScheduledFor booking_id x =
      (x.1.booking_id ≡ booking_id) × (x.1.status ≡ scheduled) × (x.1.raised_at ≡ none)

  sum_demands-append :
      (sum : D) (xs : List (ℕ × Demand D)) (x : ℕ × Demand D)
      → sum_demands sum (xs ++ (x ∷ [])) ≡ plus (sum_demands sum xs) x.1.amount
  sum_demands-append sum [] x = refl
  sum_demands-append sum (y ∷ ys) x = sum_demands-append (plus sum y.1.amount) ys x

  schedule_demands-length :
      (new_id : ℕ → ℕ) (booking_id : ℕ) (booking : Booking D) (now : ℕ)
      (ms : List (ℕ × PaymentPlanMilestone D)) (index : ℕ) (allocated : D)
      (before : List (ℕ × Demand D)) (s : PlanStore D) {after : PlanStore D}
      {demands : List (ℕ × Demand D)}
      → All (IsScheduledFor booking_id) before
      → schedule_demands new_id booking_id booking now ms index allocated before s
        ≡ ok (after, demands)
      → (length demands ≡ length before + length ms) × All (IsScheduledFor booking_id) demands
  unfolding schedule_demands
  schedule_demands-length new_id booking_id booking now [] index allocated before s new h =
      (ground arith, subst (All (IsScheduledFor booking_id)) (ap (λ r. r.1) (ok-injective h)) new)
  schedule_demands-length new_id booking_id booking now (m ∷ ms) index allocated before s new h =
      let amount = milestone_amount booking.agreement_value allocated m.1 ms in
      let x : ℕ × Demand D = (new_id index, new_demand booking_id booking now m amount) in
      let (mid, created, rest) = >>=-eq-ok (create_demand (new_id index) x.1 s) _ h in
      let (count, all) =
        schedule_demands-length new_id booking_id booking now ms (index + 1) (plus allocated amount)
          (before ++ (x ∷ [])) mid
          (All-append (IsScheduledFor booking_id) before (x ∷ []) new ((refl, refl, refl), tt))
          rest in
      (omega (arith, count, length-append before (x ∷ [])), all)

  module _ ⦃x : IsExact D⦄ where
    schedule_demands-exact :
        (new_id : ℕ → ℕ) (booking_id : ℕ) (booking : Booking D) (now : ℕ)
        (m : ℕ × PaymentPlanMilestone D) (ms : List (ℕ × PaymentPlanMilestone D)) (index : ℕ)
        (allocated : D) (before : List (ℕ × Demand D)) (s : PlanStore D) {after : PlanStore D}
        {demands : List (ℕ × Demand D)}
        → sum_demands nought before ≡ allocated
        → schedule_demands new_id booking_id booking now (m ∷ ms) index allocated before s
          ≡ ok (after, demands)
        → sum_demands nought demands ≡ booking.agreement_value
    unfolding schedule_demands
    schedule_demands-exact new_id booking_id booking now m [] index allocated before s whole h =
        let amount = minus booking.agreement_value allocated in
        let x : ℕ × Demand D = (new_id index, new_demand booking_id booking now m amount) in
        let (mid, created, rest) = >>=-eq-ok (create_demand (new_id index) x.1 s) _ h in
        ap (sum_demands nought) (sym (ap (λ r. r.1) (ok-injective rest)))
        ∙ sum_demands-append nought before x
        ∙ ap (λ t. plus t amount) whole
        ∙ plus-minus booking.agreement_value allocated
    schedule_demands-exact new_id booking_id booking now m (n ∷ ms) index allocated before s whole
          h =
        let amount = milestone_amount booking.agreement_value allocated m.1 (n ∷ ms) in
        let x : ℕ × Demand D = (new_id index, new_demand booking_id booking now m amount) in
        let (mid, created, rest) = >>=-eq-ok (create_demand (new_id index) x.1 s) _ h in
        schedule_demands-exact new_id booking_id booking now n ms (index + 1)
          (plus allocated amount) (before ++ (x ∷ [])) mid
          (sum_demands-append nought before x ∙ ap (λ t. plus t amount) whole) rest

    schedule_milestones-exact :
        (new_id : ℕ → ℕ) (booking_id : ℕ) (booking : Booking D) (now : ℕ)
        (ms : List (ℕ × PaymentPlanMilestone D)) (audit : AuditContext) (s : PlanStore D)
        {after : PlanStore D} {demands : List (ℕ × Demand D)}
        → schedule_milestones new_id booking_id booking now ms audit s ≡ ok (after, demands)
        → (length demands ≡ length ms)
          × All (IsScheduledFor booking_id) demands
          × (1 ≤ length ms → sum_demands nought demands ≡ booking.agreement_value)
    schedule_milestones-exact new_id booking_id booking now [] audit s h = (
      ground arith,
      subst (All (IsScheduledFor booking_id)) (ap (λ r. r.1) (ok-injective h)) tt,
      λ one. ground arith,
    )
    schedule_milestones-exact new_id booking_id booking now (m ∷ ms) audit s h =
        let ((mid, made), scheduling, logged) =
          >>=-eq-ok (schedule_demands new_id booking_id booking now (m ∷ ms) 0 nought [] s) _ h in
        let same = ap (λ r. r.1) (ok-injective logged) in
        let (count, all) =
          schedule_demands-length new_id booking_id booking now (m ∷ ms) 0 nought [] s tt
            scheduling in
        (
          ap length (sym same) ∙ count ∙ omega arith,
          subst (All (IsScheduledFor booking_id)) same all,
          λ one.
              ap (sum_demands nought) (sym same)
              ∙ schedule_demands-exact new_id booking_id booking now m ms 0 nought [] s refl
                  scheduling,
        )

    -- Each milestone of the booking's plan gives one demand of the booking, SCHEDULED and not raised,
    -- and where there are milestones the demands add up to the agreement value.
    pub generate_demand_schedule_exact :
        (new_id : ℕ → ℕ) (booking_id now plan_id : ℕ) (audit : AuditContext) (s after : PlanStore D)
        (booking : Booking D) (demands : List (ℕ × Demand D))
        → s.collections.bookings.row booking_id ≡ some booking
        → booking.payment_plan_id ≡ some plan_id
        → generate_demand_schedule new_id booking_id now audit s ≡ ok (after, demands)
        → (length demands ≡ length (milestones_of plan_id s))
          × All (IsScheduledFor booking_id) demands
          × (1 ≤ length (milestones_of plan_id s)
              → sum_demands nought demands ≡ booking.agreement_value)
    unfolding generate_demand_schedule
    generate_demand_schedule_exact new_id booking_id now plan_id audit s after booking demands found
          planned h =
        let ms = sorted_milestones plan_id s in
        let count = length-sort_by (λ m. m.1.sequence) (milestones_of plan_id s) in
        let scheduled_for : schedule_milestones new_id booking_id booking now ms audit s
            ≡ ok (after, demands) =
          ap (λ p. schedule_booking new_id booking_id booking now p audit s) (sym planned)
          ∙ ap
              (λ o. or_throw o booking_not_found >>= λ b.
                schedule_booking new_id booking_id b now b.payment_plan_id audit s)
              (sym found)
          ∙ h in
        let (number, all, sum) =
          schedule_milestones-exact new_id booking_id booking now ms audit s scheduled_for in
        (number ∙ count, all, λ one. sum (omega (arith, one, count)))
