-- ===== src/Payouts/Prepare/Deduction.antt =====
-- packages/services/src/payouts.ts: the recovery deduction of a payout line.
use desire_mlm_project.Base.{ℕ, inl, inr, List, [], ◌∷◌, arith, All, Bool-cases}
use desire_mlm_project.Decimal.{Decimal, IsExact, ◌≼◌}
use desire_mlm_project.Payouts.Store.{Recovery}
use desire_mlm_project.Payouts.Prepare.{deduct, take_from}

module _ {D : Type 0} ⦃d : Decimal D⦄ ⦃x : IsExact D⦄ where
  open d use {zero as nought, plus, minus, min, greater_than_or_equal_to, less_than_or_equal_to}
  open x use {
    plus_value, minus_value, zero_value, greater_than_or_equal_to_value,
    less_than_or_equal_to_value, min_lem,
  }

  abbrev pub IsNotOverdrawn : ℕ × Recovery D → Type 0
  IsNotOverdrawn r = nought ≼ r.1.outstanding_amount

  deduct_bounds :
      (cap : D) (rs : List (ℕ × Recovery D)) (adjustment : D)
      → adjustment ≼ cap
      → (adjustment ≼ (deduct cap rs adjustment).1) × ((deduct cap rs adjustment).1 ≼ cap)
  unfolding deduct
  deduct_bounds cap [] adjustment h = (omega arith, h)
  deduct_bounds cap (r ∷ rs) adjustment h =
      let applied = min (minus cap adjustment) r.1.outstanding_amount in
      ground (
        arith,
        deduct_bounds cap rs adjustment h,
        deduct_bounds cap rs (plus adjustment applied),
        min_lem (minus cap adjustment) r.1.outstanding_amount,
        less_than_or_equal_to_value (minus cap adjustment) r.1.outstanding_amount,
        less_than_or_equal_to_value applied nought,
        zero_value,
        plus_value adjustment applied,
        minus_value cap adjustment,
      )

  take_from-IsNotOverdrawn :
      (id : ℕ) (r : Recovery D) (room : D)
      → IsNotOverdrawn (id, take_from r (min room r.outstanding_amount))
  take_from-IsNotOverdrawn id r room = ground (
    arith,
    min_lem room r.outstanding_amount,
    less_than_or_equal_to_value room r.outstanding_amount,
    zero_value,
    minus_value r.outstanding_amount (min room r.outstanding_amount),
  )

  deduct-IsNotOverdrawn :
      (cap : D) (rs : List (ℕ × Recovery D)) (adjustment : D)
      → All IsNotOverdrawn (deduct cap rs adjustment).0
  unfolding deduct
  deduct-IsNotOverdrawn cap [] adjustment = tt
  deduct-IsNotOverdrawn cap (r ∷ rs) adjustment =
      let applied = min (minus cap adjustment) r.1.outstanding_amount in
      let skipped = deduct-IsNotOverdrawn cap rs adjustment in
      let taken = deduct-IsNotOverdrawn cap rs (plus adjustment applied) in
      elim (Bool-cases (greater_than_or_equal_to adjustment cap)) [
        | inl full ↦ rw full tt
        | inr room ↦ elim (Bool-cases (less_than_or_equal_to applied nought)) [
          | inl nothing ↦ rw (room, nothing) skipped
          | inr some_left ↦
              rw (room, some_left) (take_from-IsNotOverdrawn r.0 r.1 (minus cap adjustment), taken)
        ]
      ]

  -- The recovery that is taken from a line, for a cap that is not negative, lies between nothing and the
  -- cap, and no recovery is taken below an outstanding amount of nothing.
  pub deduct_lem :
      (cap : D) (rs : List (ℕ × Recovery D))
      → nought ≼ cap
      → (nought ≼ (deduct cap rs nought).1)
        × ((deduct cap rs nought).1 ≼ cap)
        × All IsNotOverdrawn (deduct cap rs nought).0
  deduct_lem cap rs h =
      let (above, below) = deduct_bounds cap rs nought h in
      (above, below, deduct-IsNotOverdrawn cap rs nought)
