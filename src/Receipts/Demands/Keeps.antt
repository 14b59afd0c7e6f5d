-- ===== src/Receipts/Demands/Keeps.antt =====
-- packages/services/src/receipts.ts: bringing a demand in line leaves the allocations and amounts alone.
use desire_mlm_project.Base.{
  ℕ, ◌≡◌, ◌≢◌, refl, sym, ap, ◌∙◌, Bool, some, List, [], ◌∷◌, ◌==◌, arith, inl, inr, Option-cases,
  Bool-cases, ok, Result-cases,
}
use desire_mlm_project.Decimal.{Decimal}
use desire_mlm_project.Table.{Table}
use desire_mlm_project.Receipts.Store.{
  Demand, DemandStatus, scheduled, paid, waived, EarnedEntry, Store, Catalogue,
}
use desire_mlm_project.Receipts.Release.{
  release_entry, release_milestones, release_milestone_commission, entries_of, fired_by,
  demand_slabs, demand_paid,
}
use desire_mlm_project.Commission.Release.{resolve_milestone_cumulative_pct}
use desire_mlm_project.Receipts.Demands.{
  allocated_total_for_demand, sync_demand_status, sync_to, status_number, next_status, set_status,
}

-- No demand becomes SCHEDULED.
abbrev pub NoneScheduledAnew : {D : Type 0} → Store D → Store D → Type 0
NoneScheduledAnew {D} s s' =
    (k : ℕ) (x' : Demand D)
    → s'.demands.row k ≡ some x'
    → x'.status ≡ scheduled
    → (x : Demand D) × (s.demands.row k ≡ some x) × (x.status ≡ scheduled)

-- The allocations, and what the demands are for, are the same, and no demand is SCHEDULED anew.
pub record Keeps {D : Type 0} (s s' : Store D) : Type 0 where
  pub allocations_kept : s'.allocations ≡ s.allocations
  pub amount_kept :
      (k : ℕ) (x' : Demand D)
      → s'.demands.row k ≡ some x'
      → (x : Demand D) × (s.demands.row k ≡ some x) × (x'.amount ≡ x.amount)
  pub raised_kept : NoneScheduledAnew s s'

module _ {D : Type 0} where
  Keeps-refl :
      {s s' : Store D} → s'.allocations ≡ s.allocations → s'.demands ≡ s.demands → Keeps s s'
  Keeps-refl a e = record {
    allocations_kept = a;
    amount_kept = λ k x' h. (x', ap (λ (t : Table (Demand D)). t.row k) (sym e) ∙ h, refl);
    raised_kept = λ k x' h p. (x', ap (λ (t : Table (Demand D)). t.row k) (sym e) ∙ h, p);
  }

  Keeps-trans : {s s' s'' : Store D} → Keeps s s' → Keeps s' s'' → Keeps s s''
  Keeps-trans f g = record {
    allocations_kept = g.allocations_kept ∙ f.allocations_kept;
    amount_kept = λ k z h.
        let (y, at_y, e) = g.amount_kept k z h in
        let (x, at_x, e') = f.amount_kept k y at_y in (x, at_x, e ∙ e');
    raised_kept = λ k z h p. let (y, at_y, q) = g.raised_kept k z h p in f.raised_kept k y at_y q;
  }

module _ {D : Type 0} ⦃d : Decimal D⦄ where
  open d use {zero as nought, plus, minus, is_zero, less_than_or_equal_to, greater_than}

  release_entry-Keeps :
      (trigger_type trigger_ref entry_id : ℕ) (entry : EarnedEntry D) (pct : D) (s : Store D)
      {s' : Store D}
      → release_entry trigger_type trigger_ref entry_id entry pct s ≡ ok s'
      → Keeps s s'
  unfolding release_entry
  release_entry-Keeps trigger_type trigger_ref entry_id entry pct s h =
      Keeps-refl (ground arith) (ground arith)

  release_milestones-Keeps :
      (c : Catalogue D) (demand_id : ℕ) (fired : ℕ → Bool) (es : List (ℕ × EarnedEntry D))
      (s : Store D) {s' : Store D}
      → release_milestones c demand_id fired es s ≡ ok s'
      → Keeps s s'
  unfolding release_milestones
  release_milestones-Keeps c demand_id fired [] s h = Keeps-refl (ground arith) (ground arith)
  release_milestones-Keeps c demand_id fired (e ∷ es) s h =
      let pct = resolve_milestone_cumulative_pct (demand_slabs (c.schedule e.1.scheme_id)) fired in
      let first = release_entry demand_paid demand_id e.0 e.1 pct s in
      elim (Bool-cases (is_zero pct)) [
        | inl nothing ↦ release_milestones-Keeps c demand_id fired es s (ground arith)
        | inr due ↦ elim (Result-cases first) [
          | inl (_, refused) ↦ absurd (ground arith)
          | inr (mid, done) ↦
              Keeps-trans (release_entry-Keeps demand_paid demand_id e.0 e.1 pct s done)
                (release_milestones-Keeps c demand_id fired es mid (ground arith))
        ]
      ]

  set_status-Keeps :
      (demand_id : ℕ) (s : Store D) (status : DemandStatus)
      → status ≢ scheduled
      → Keeps s (set_status demand_id status s)
  set_status-Keeps demand_id s status new = record {
    allocations_kept = refl;
    amount_kept = λ k x' h. elim (Option-cases (s.demands.row k)) [
      | inl missing ↦ absurd (ground arith)
      | inr (x, found) ↦ (x, found, ground arith)
    ];
    raised_kept = λ k x' h p. elim (Option-cases (s.demands.row k)) [
      | inl missing ↦ absurd (ground arith)
      | inr (x, found) ↦ elim (Bool-cases (k == demand_id)) [
        | inl this ↦ absurd (new (ground arith))
        | inr other ↦ (x, found, ground arith)
      ]
    ];
  }

  sync_to-Keeps :
      (c : Catalogue D) (demand_id : ℕ) (demand : Demand D) (status : DemandStatus) (s : Store D)
      {s' : Store D}
      → status ≢ scheduled
      → sync_to c demand_id demand status s ≡ ok s'
      → Keeps s s'
  unfolding release_milestone_commission
  sync_to-Keeps c demand_id demand status s unscheduled h =
      let changed = set_status demand_id status s in
      let released = release_milestone_commission c demand.booking_id demand_id changed in
      elim (Bool-cases (status_number demand.status == status_number waived)) [
        | inl left_alone ↦ Keeps-refl (ground arith) (ground arith)
        | inr other ↦ elim (Bool-cases (status_number status == status_number demand.status)) [
          | inl same ↦ Keeps-refl (ground arith) (ground arith)
          | inr new ↦ elim (Bool-cases (status_number status == status_number paid)) [
            | inl in_full ↦ Keeps-trans (set_status-Keeps demand_id s status unscheduled) (
                release_milestones-Keeps c demand_id (fired_by demand.booking_id changed)
                  (entries_of demand.booking_id changed) changed (ground arith))
            | inr part ↦
                Keeps-trans (set_status-Keeps demand_id s status unscheduled)
                  (Keeps-refl (ground arith) (ground arith))
          ]
        ]
      ]

  next_status-raised : (allocated owed : D) → next_status allocated owed ≢ scheduled
  next_status-raised allocated owed h = ground arith

  pub sync_demand_status-Keeps :
      (c : Catalogue D) (demand_id : ℕ) (s : Store D) {s' : Store D}
      → sync_demand_status c demand_id s ≡ ok s'
      → Keeps s s'
  unfolding sync_demand_status
  sync_demand_status-Keeps c demand_id s h = elim (Option-cases (s.demands.row demand_id)) [
    | inl missing ↦ absurd (ground arith)
    | inr (demand, found) ↦
        sync_to-Keeps c demand_id demand
          (next_status (allocated_total_for_demand demand_id s.allocations) demand.amount) s
          (next_status-raised (allocated_total_for_demand demand_id s.allocations) demand.amount)
          (ground arith)
  ]
