-- ===== src/Commission/Release.antt =====
-- packages/commission/src/release.ts and clawback.ts: paying a commission out in steps, and taking it
-- back.
pub mod Laws
use desire_mlm_project.Base.{ℕ, Bool, ◌&&◌, Option, none, some, List, [], ◌∷◌, if◌then◌else◌}
use desire_mlm_project.Decimal.{Decimal}
use desire_mlm_project.Commission.Types.{
  ReleaseScheduleSlab, ReleaseComputationInput, ClawbackInput, ClawbackResult,
}
use desire_mlm_project.Commission.Entries.{round2}

-- `slab.triggerRef ?? slab.triggerType`
abbrev pub trigger_key : Option ℕ → ℕ → ℕ
trigger_key none trigger_type = trigger_type
trigger_key (some trigger_ref) trigger_type = trigger_ref

module _ {D : Type 0} ⦃d : Decimal D⦄ where
  open d use {zero as nought, hundred, minus, mul, div, negated, min, greater_than}

  -- `firedTriggerRefs.has(key)`
  abbrev pub has_fired : (ℕ → Bool) → ReleaseScheduleSlab D → Bool
  has_fired fired slab = fired (trigger_key slab.trigger_ref slab.trigger_type)

  -- The loop over the slabs, from the percentage so far.
  unfoldable pub max_fired : (ℕ → Bool) → D → List (ReleaseScheduleSlab D) → D
  max_fired fired cumulative [] = cumulative
  max_fired fired cumulative (slab ∷ slabs) =
      max_fired fired
        (if has_fired fired slab && greater_than slab.release_pct cumulative
          then slab.release_pct
          else cumulative)
        slabs

  unfoldable pub resolve_milestone_cumulative_pct : List (ReleaseScheduleSlab D) → (ℕ → Bool) → D
  resolve_milestone_cumulative_pct slabs fired = max_fired fired nought slabs

  unfoldable pub release_target : ReleaseComputationInput D → D
  unfolding round2
  release_target input =
      round2 (div (mul input.entry_gross_amount input.cumulative_release_pct) hundred)

  unfoldable pub compute_release : ReleaseComputationInput D → D
  compute_release input =
      let delta = minus (release_target input) input.entry_already_released in
      if greater_than delta nought then delta else nought

  unfoldable pub compute_clawback : ClawbackInput D → ClawbackResult D
  compute_clawback input =
      let netted = min input.beneficiary_pending_payable input.released_total in
      record {
        contra_amount = negated input.released_total;
        netted_against_pending = netted;
        recovery_amount = minus input.released_total netted;
      }
