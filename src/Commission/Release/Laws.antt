-- ===== src/Commission/Release/Laws.antt =====
-- packages/commission/src/release.ts and clawback.ts: releases are idempotent and never go back, and a
-- clawback is covered in full.
use mathlib.Core.List.{Memᴰ}
use desire_mlm_project.Base.{
  ℕ, ◌+◌, ◌≡◌, refl, ◌⊎◌, inl, inr, Bool, true, ◌&&◌, List, [], ◌∷◌, arith, All, if◌then◌else◌, ltb,
  Bool-cases,
}
use desire_mlm_project.Decimal.{Decimal, IsExact, ◌≼◌}
use desire_mlm_project.Decimal.Laws.{plus_zero, plus-minus}
use desire_mlm_project.Commission.Types.{
  ReleaseScheduleSlab, ReleaseComputationInput, ClawbackInput,
}
use desire_mlm_project.Commission.Release.{
  has_fired, max_fired, resolve_milestone_cumulative_pct, release_target, compute_release,
  compute_clawback,
}

module _ {D : Type 0} ⦃d : Decimal D⦄ ⦃x : IsExact D⦄ where
  open d use {zero as nought, plus, minus, min, negated, greater_than}
  open x use {
    eq_of_value, zero_value, plus_value, minus_value, negated_value, greater_than_value,
    less_than_or_equal_to_value, min_lem,
  }

  -- What has been released after a release.
  abbrev pub released : ReleaseComputationInput D → D
  released input = plus input.entry_already_released (compute_release input)

  -- `computeRelease` on the target and the amount released.
  abbrev step : D → D → D
  step target already =
      if greater_than (minus target already) nought then minus target already else nought

  module _ (target already : D) where
    abbrev more : Bool
    more = greater_than (minus target already) nought

    more_value : more ≡ ltb (x.credit already + x.debit target) (x.credit target + x.debit already)
    more_value = ground (
      arith,
      greater_than_value (minus target already) nought,
      zero_value,
      minus_value target already,
    )

    nought_le_step : nought ≼ step target already
    nought_le_step = ground (arith, more_value, zero_value, minus_value target already)

    already_le_step : already ≼ plus already (step target already)
    already_le_step =
        ground (arith, nought_le_step, zero_value, plus_value already (step target already))

    le_step : target ≼ plus already (step target already)
    le_step = ground (
      arith,
      more_value,
      zero_value,
      minus_value target already,
      plus_value already (step target already),
    )

    step_reaches :
        (plus already (step target already) ≡ target)
        ⊎ (plus already (step target already) ≡ already)
    step_reaches = elim (Bool-cases more) [
      | inl e ↦ inl (rw e (plus-minus target already))
      | inr e ↦ inr (rw e (plus_zero already))
    ]

    step_done : target ≼ already → step target already ≡ nought
    step_done h = ground (arith, more_value)

  -- After a release the amount released is the target of the percentage, or what it was before where
  -- that is more, so nothing is ever taken back; a release is never negative; and the same
  -- percentage once more releases zero.
  pub compute_release_lem :
      (input : ReleaseComputationInput D)
      → (nought ≼ compute_release input)
        × (input.entry_already_released ≼ released input)
        × (release_target input ≼ released input)
        × ((released input ≡ release_target input)
            ⊎ (released input ≡ input.entry_already_released))
        × (compute_release (record input { entry_already_released = released input }) ≡ nought)
  unfolding compute_release release_target
  compute_release_lem input =
      let target = release_target input in
      let already = input.entry_already_released in
      let up_to = le_step target already in
      (
        nought_le_step target already,
        already_le_step target already,
        up_to,
        step_reaches target already,
        step_done target (plus already (step target already)) up_to,
      )

  -- The clawback is the released total, negated; what is netted against pending commission and what
  -- becomes a recovery add up to it; netting takes no more than is pending or released, and where
  -- both are non-negative neither part is negative.
  pub compute_clawback_lem :
      (input : ClawbackInput D)
      → let r = compute_clawback input in
        (plus r.contra_amount (plus r.netted_against_pending r.recovery_amount) ≡ nought)
        × (r.netted_against_pending ≼ input.beneficiary_pending_payable)
        × (nought ≼ r.recovery_amount)
        × (nought ≼ input.beneficiary_pending_payable
            → nought ≼ input.released_total
            → nought ≼ r.netted_against_pending)
  unfolding compute_clawback
  compute_clawback_lem input =
      let total = input.released_total in
      let pending = input.beneficiary_pending_payable in
      let netted = min pending total in
      let least = min_lem pending total in
      let order = less_than_or_equal_to_value pending total in
      (
        eq_of_value _ _ (
            omega (
              arith,
              plus_value (negated total) (plus netted (minus total netted)),
              plus_value netted (minus total netted),
              minus_value total netted,
              negated_value total,
              zero_value,
            )),
        ground (arith, least, order),
        ground (arith, least, order, minus_value total netted, zero_value),
        λ p t. ground (arith, least, order, zero_value),
      )

  le_max_fired :
      (fired : ℕ → Bool) (cumulative : D) (slabs : List (ReleaseScheduleSlab D))
      → cumulative ≼ max_fired fired cumulative slabs
  unfolding max_fired
  le_max_fired fired cumulative [] = omega arith
  le_max_fired fired cumulative (slab ∷ slabs) = ground (
    arith,
    greater_than_value slab.release_pct cumulative,
    le_max_fired fired slab.release_pct slabs,
    le_max_fired fired cumulative slabs,
  )

  fired_le_max_fired :
      (fired : ℕ → Bool) (cumulative : D) (slabs : List (ReleaseScheduleSlab D))
      → All
          (λ slab.
            has_fired fired slab ≡ true → slab.release_pct ≼ max_fired fired cumulative slabs)
          slabs
  unfolding max_fired
  fired_le_max_fired fired cumulative [] = tt
  fired_le_max_fired fired cumulative (slab ∷ slabs) = (
    λ h. ground (
      arith,
      greater_than_value slab.release_pct cumulative,
      le_max_fired fired slab.release_pct slabs,
      le_max_fired fired cumulative slabs,
    ),
    fired_le_max_fired fired
        (if has_fired fired slab && greater_than slab.release_pct cumulative
          then slab.release_pct
          else cumulative)
        slabs,
  )

  -- A percentage that a fired slab of the list unlocks, or the one at hand.
  abbrev Attained : (ℕ → Bool) → D → List (ReleaseScheduleSlab D) → D → Type 0
  Attained fired cumulative slabs p =
      (p ≡ cumulative)
      ⊎ ((slab : ReleaseScheduleSlab D) × Memᴰ slab slabs
          × (has_fired fired slab ≡ true)
          × (p ≡ slab.release_pct))

  max_fired-Attained :
      (fired : ℕ → Bool) (cumulative : D) (slabs : List (ReleaseScheduleSlab D))
      → Attained fired cumulative slabs (max_fired fired cumulative slabs)
  unfolding max_fired
  max_fired-Attained fired cumulative [] = inl refl
  max_fired-Attained fired cumulative (slab ∷ slabs) =
      elim (Bool-cases (has_fired fired slab && greater_than slab.release_pct cumulative)) [
        | inl e ↦ rw e (elim (max_fired-Attained fired slab.release_pct slabs) [
          | inl p ↦ inr (slab, Memᴰ.head refl, ground arith, p)
          | inr (s, m, h, p) ↦ inr (s, Memᴰ.tail m, h, p)
        ])
        | inr e ↦ rw e (elim (max_fired-Attained fired cumulative slabs) [
          | inl p ↦ inl p
          | inr (s, m, h, p) ↦ inr (s, Memᴰ.tail m, h, p)
        ])
      ]

  -- The percentage that the slabs unlock is the largest of those that have fired, and of zero: it is
  -- not below zero, nor below the percentage of a slab that has fired, and it is zero or the
  -- percentage of a slab that has fired.
  pub resolve_milestone_lem :
      (slabs : List (ReleaseScheduleSlab D)) (fired : ℕ → Bool)
      → let p = resolve_milestone_cumulative_pct slabs fired in
        (nought ≼ p)
        × All (λ slab. has_fired fired slab ≡ true → slab.release_pct ≼ p) slabs
        × ((p ≡ nought)
            ⊎ ((slab : ReleaseScheduleSlab D) × Memᴰ slab slabs
                × (has_fired fired slab ≡ true)
                × (p ≡ slab.release_pct)))
  unfolding resolve_milestone_cumulative_pct
  resolve_milestone_lem slabs fired = (
    le_max_fired fired nought slabs,
    fired_le_max_fired fired nought slabs,
    max_fired-Attained fired nought slabs,
  )
