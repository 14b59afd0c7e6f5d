-- ===== src/PaymentPlans/Plans/Complete.antt =====
-- packages/services/src/payment-plans.ts: what the check of the percentages leaves to a plan that is
-- complete.
use desire_mlm_project.Base.{
  ℕ, ◌≡◌, refl, sym, ap, ◌∙◌, true, List, [], ◌∷◌, arith, inl, inr, Option-cases, ok,
}
use desire_mlm_project.Decimal.{Decimal, IsExact}
use desire_mlm_project.Decimal.Laws.{plus_right_comm, plus_comm, plus_zero, plus-cancel, equals→≡}
use desire_mlm_project.Payouts.Store.{AuditContext}
use desire_mlm_project.PaymentPlans.Store.{
  PaymentPlanMilestone, CreatePaymentPlanMilestoneInput, PlanStore, PlanCatalogue,
}
use desire_mlm_project.PaymentPlans.Plans.{milestones_of, sum_plan_pct, add_milestone}

module _ {D : Type 0} ⦃d : Decimal D⦄ where
  open d use {zero as nought, hundred, plus, equals}

  -- The percentages of the plan's milestones add up to 100.
  abbrev pub IsComplete : ℕ → PlanStore D → Type 0
  IsComplete plan_id s = sum_plan_pct nought (milestones_of plan_id s) ≡ hundred

  module _ ⦃x : IsExact D⦄ where
    sum_plan_pct-plus :
        (a b : D) (ms : List (ℕ × PaymentPlanMilestone D))
        → sum_plan_pct (plus a b) ms ≡ plus (sum_plan_pct a ms) b
    unfolding sum_plan_pct
    sum_plan_pct-plus a b [] = refl
    sum_plan_pct-plus a b (m ∷ ms) =
        ap (λ t. sum_plan_pct t ms) (plus_right_comm a b m.1.pct_of_agreement_value)
        ∙ sum_plan_pct-plus (plus a m.1.pct_of_agreement_value) b ms

    add_milestone-eq_ok :
        (c : PlanCatalogue D) (s : PlanStore D) (plan_id milestone_id : ℕ)
        (m : CreatePaymentPlanMilestoneInput D) (audit : AuditContext) {after : PlanStore D}
        → add_milestone c s plan_id milestone_id m audit ≡ ok after
        → equals (sum_plan_pct m.pct_of_agreement_value (milestones_of plan_id s)) hundred ≡ true
    unfolding add_milestone
    add_milestone-eq_ok c s plan_id milestone_id m audit h = elim (Option-cases audit.actor_id) [
      | inl missing ↦ absurd (ground arith)
      | inr (actor, is_actor) ↦ elim (Option-cases (s.plans.row plan_id)) [
        | inl missing ↦ absurd (ground arith)
        | inr (plan, found) ↦ ground arith
      ]
    ]

    -- On a plan whose stored milestones make up 100 a milestone is added only with nothing in it.
    pub add_milestone_adds_nothing :
        (c : PlanCatalogue D) (s : PlanStore D) (plan_id milestone_id : ℕ)
        (m : CreatePaymentPlanMilestoneInput D) (audit : AuditContext) {after : PlanStore D}
        → IsComplete plan_id s
        → add_milestone c s plan_id milestone_id m audit ≡ ok after
        → m.pct_of_agreement_value ≡ nought
    add_milestone_adds_nothing c s plan_id milestone_id m audit complete h =
        let pct = m.pct_of_agreement_value in
        let total = equals→≡ _ _ (add_milestone-eq_ok c s plan_id milestone_id m audit h) in
        plus-cancel hundred pct (
          ap (λ t. plus t pct) (sym complete)
          ∙ sym (sum_plan_pct-plus nought pct (milestones_of plan_id s))
          ∙ ap (λ t. sum_plan_pct t (milestones_of plan_id s))
              (plus_comm nought pct ∙ plus_zero pct)
          ∙ total)
