-- ===== src/PaymentPlans/Plans.antt =====
-- packages/services/src/payment-plans.ts: `createPaymentPlan` and `addMilestone`. The identifiers that the
-- database gives the new rows are arguments.
pub mod Complete
use desire_mlm_project.Base.{
  ℕ, ◌+◌, Bool, true, false, not, ◌&&◌, ◌||◌, Option, none, some, List, [], ◌∷◌, ◌++◌, ◌==◌, any,
  filter, length, if◌then◌else◌, Result, ok, ◌>>=◌, ◌>>◌, or_throw, throw_if,
}
use desire_mlm_project.Decimal.{Decimal}
use desire_mlm_project.Table.{insert, select, count}
use desire_mlm_project.Payouts.Store.{AuditContext}
use desire_mlm_project.PaymentPlans.Store.{
  PaymentPlan, PaymentPlanMilestone, CreatePaymentPlanMilestoneInput, CreatePaymentPlanParams,
  plan_created, milestone_created, PlanStore, PlanCatalogue, PlanError, actor_required,
  other_organisation, not_permitted, plan_not_found, duplicate_plan_code,
  invalid_milestone_schedule, duplicate_milestone_sequence,
}

abbrev pub or_default_offset : Option ℕ → ℕ
or_default_offset none = 15
or_default_offset (some days) = days

abbrev pub has_code : (org_id code : ℕ) → PaymentPlan → Bool
has_code org_id code plan = plan.org_id == org_id && plan.code == code

module _ {D : Type 0} where
  abbrev pub is_of_plan : ℕ → ℕ × PaymentPlanMilestone D → Bool
  is_of_plan plan_id m = m.1.payment_plan_id == plan_id

  abbrev pub milestones_of : ℕ → PlanStore D → List (ℕ × PaymentPlanMilestone D)
  milestones_of plan_id s = filter (is_of_plan plan_id) s.milestones

  abbrev pub has_sequence : ℕ → CreatePaymentPlanMilestoneInput D → Bool
  has_sequence sequence m = m.sequence == sequence

  -- Two milestones with one sequence break the unique index.
  abbrev pub repeats_sequence : List (CreatePaymentPlanMilestoneInput D) → Bool
  repeats_sequence [] = false
  repeats_sequence (m ∷ ms) =
      let rest = repeats_sequence ms in if any (has_sequence m.sequence) ms then true else rest

  -- The row as it is stored: the column rounds the percentage, `round_pct`.
  abbrev pub new_milestone :
      (round_pct : D → D)
      → (plan_id : ℕ) → CreatePaymentPlanMilestoneInput D
      → PaymentPlanMilestone D
  new_milestone round_pct plan_id m = record {
    payment_plan_id = plan_id;
    sequence = m.sequence;
    label = m.label;
    pct_of_agreement_value = round_pct m.pct_of_agreement_value;
    due_days_offset = or_default_offset m.due_days_offset;
  }

  -- The rows of a plan's milestones; the one at index i gets the identifier `new_id i`.
  unfoldable pub create_milestones :
      (round_pct : D → D) (new_id : ℕ → ℕ) (plan_id index : ℕ)
      → List (CreatePaymentPlanMilestoneInput D)
      → List (ℕ × PaymentPlanMilestone D)
  create_milestones round_pct new_id plan_id index [] = []
  create_milestones round_pct new_id plan_id index (m ∷ ms) =
      (new_id index, new_milestone round_pct plan_id m)
      ∷ create_milestones round_pct new_id plan_id (index + 1) ms

  abbrev pub new_plan : CreatePaymentPlanParams D → PaymentPlan
  new_plan params = record {
    org_id = params.audit.org_id;
    project_id = params.project_id;
    code = params.code;
    name = params.name;
  }

  unfoldable pub write_plan :
      (round_pct : D → D) (plan_id : ℕ) (new_id : ℕ → ℕ)
      → CreatePaymentPlanParams D
      → PlanStore D
      → PlanStore D
  unfolding create_milestones
  write_plan round_pct plan_id new_id params s =
      let plan = new_plan params in
      record s {
        plans = insert plan_id plan s.plans;
        milestones = s.milestones ++ create_milestones round_pct new_id plan_id 0 params.milestones;
        audit_log =
            s.audit_log
            ++ ((params.audit, plan_created plan_id plan (length params.milestones)) ∷ []);
      }

module _ {D : Type 0} ⦃d : Decimal D⦄ where
  open d use {zero as nought, hundred, plus, equals}

  -- `params.milestones.reduce`
  unfoldable pub sum_pct : D → List (CreatePaymentPlanMilestoneInput D) → D
  sum_pct sum [] = sum
  sum_pct sum (m ∷ ms) = sum_pct (plus sum m.pct_of_agreement_value) ms

  -- `plan.milestones.reduce`
  unfoldable pub sum_plan_pct : D → List (ℕ × PaymentPlanMilestone D) → D
  sum_plan_pct sum [] = sum
  sum_plan_pct sum (m ∷ ms) = sum_plan_pct (plus sum m.1.pct_of_agreement_value) ms

  unfoldable pub create_payment_plan :
      PlanCatalogue D
      → PlanStore D
      → (plan_id : ℕ) → (new_id : ℕ → ℕ) → CreatePaymentPlanParams D
      → Result PlanError (PlanStore D)
  unfolding sum_pct write_plan
  create_payment_plan c s plan_id new_id params = do
    actor ← or_throw params.audit.actor_id actor_required
    throw_if (not (equals (sum_pct nought params.milestones) hundred)) invalid_milestone_schedule
    throw_if (not (c.may_write_plans actor params.project_id)) not_permitted
    throw_if
        (not (count (has_code params.audit.org_id params.code) s.plans == 0)
          || repeats_sequence params.milestones)
        duplicate_plan_code
    ok (write_plan c.round_pct plan_id new_id params s)

  unfoldable pub add_milestone :
      PlanCatalogue D
      → PlanStore D
      → (plan_id milestone_id : ℕ) → CreatePaymentPlanMilestoneInput D
      → AuditContext
      → Result PlanError (PlanStore D)
  unfolding sum_plan_pct
  add_milestone c s plan_id milestone_id m audit = do
    actor ← or_throw audit.actor_id actor_required
    plan ← or_throw (s.plans.row plan_id) plan_not_found
    throw_if (not (plan.org_id == audit.org_id)) other_organisation
    throw_if (not (c.may_write_plans actor plan.project_id)) not_permitted
    throw_if
        (not (equals (sum_plan_pct m.pct_of_agreement_value (milestones_of plan_id s)) hundred))
        invalid_milestone_schedule
    throw_if (any (λ x. x.1.sequence == m.sequence) (milestones_of plan_id s))
        duplicate_milestone_sequence
    ok (record s {
      milestones = s.milestones ++ ((milestone_id, new_milestone c.round_pct plan_id m) ∷ []);
      audit_log =
          s.audit_log
          ++ ((audit, milestone_created milestone_id (new_milestone c.round_pct plan_id m)) ∷ []);
    })
