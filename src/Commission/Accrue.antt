-- ===== src/Commission/Accrue.antt =====
-- packages/commission/src/accrue.ts: self commission and level overrides of a booking.
pub mod Reproducible
pub mod Conservation
pub mod Recipients
use desire_mlm_project.Base.{
  ℕ, zero, suc, Bool, true, false, Option, none, some, List, [], ◌∷◌, ◌++◌, ltb, ◌==◌, find, length,
  if◌then◌else◌, Result, ok, err, ◌>>=◌, or_throw, >>=-eq-ok, ◌≡◌, ◌∙◌, ap, arith,
}
use desire_mlm_project.Decimal.{Decimal}
use desire_mlm_project.Commission.Types.{
  none_mode, roll_up, AssociateStatus, active, other_status, GradeRate, LevelRate, SchemeConfig,
  GradeAssignmentRecord, OrgSnapshot, ResolvedUplineNode, AccrualInput, CommissionEntryResult,
  AccrualResult,
}
use desire_mlm_project.Commission.Entries.{
  Frame, round2, apply_grade_rate, self_entry, override_entry, override_amount,
}
use desire_mlm_project.Commission.Resolve.{grade_as_of, upline_chain_as_of, or_nil}

abbrev pub is_active : AssociateStatus → Bool
is_active active = true
is_active (other_status _) = false

-- `CommissionSchemeMisconfiguredError`, by the place that throws it. `undefined_candidate` is the
-- TypeError of `uplineChain[-1]`, for a level rate of level 0.
pub data Misconfigured : Type 0 where
  no_grade no_rate over_ceiling undefined_candidate : Misconfigured

-- What became of one level's percentage.
pub data Placement : Type 0 where
  paid : ResolvedUplineNode → Placement
  consumed walked_off : Placement

-- `uplineChain[level - 1]` and what stands above it; `none` is index -1
abbrev pub from_level : {A : Type 0} → ℕ → List A → Option (List A)
from_level zero xs = none
from_level (suc zero) xs = some xs
from_level (suc (suc n)) [] = some []
from_level (suc (suc n)) (x ∷ xs) = from_level (suc n) xs

abbrev pub meets_rank : Option ℕ → ℕ → Bool
meets_rank none rank = true
meets_rank (some least) rank = if ltb rank least then false else true

module _ {D : Type 0} ⦃d : Decimal D⦄ where
  open d use {zero as nought, hundred, plus, mul, div, greater_than, is_zero}

  unfoldable pub is_eligible : ResolvedUplineNode → SchemeConfig D → Bool
  is_eligible node scheme =
      if is_active node.status then meets_rank scheme.min_grade_rank node.grade_rank else false

  -- The `while` loop, over the part of the chain that is still to be offered.
  unfoldable pub place : SchemeConfig D → List ResolvedUplineNode → Placement
  place scheme [] = walked_off
  place scheme (candidate ∷ above) =
      if is_eligible candidate scheme
      then paid candidate
      else elim scheme.compression_mode [ none_mode ↦ consumed | roll_up ↦ place scheme above ]

  -- `entries` and `breakage` after the percentage has been offered
  abbrev pub settle : Frame D → LevelRate D → Placement → AccrualResult D → AccrualResult D
  settle f r (paid candidate) acc = record acc {
    entries =
        acc.entries
        ++ (override_entry f candidate r.level r.pct_of_seller_commission
              (override_amount f r.pct_of_seller_commission)
            ∷ []);
  }
  settle f r consumed acc = record acc {
    breakage = plus acc.breakage (override_amount f r.pct_of_seller_commission);
  }
  settle f r walked_off acc = record acc {
    breakage = plus acc.breakage (override_amount f r.pct_of_seller_commission);
  }

  abbrev pub offer :
      Frame D
      → LevelRate D
      → Option (List ResolvedUplineNode)
      → AccrualResult D
      → Result Misconfigured (AccrualResult D)
  offer f r none acc = err undefined_candidate
  offer f r (some above) acc = ok (settle f r (place f.input.scheme above) acc)

  -- One round of the loop over `scheme.levelRates`.
  unfoldable pub add_level :
      Frame D → LevelRate D → AccrualResult D → Result Misconfigured (AccrualResult D)
  unfolding is_eligible
  add_level f r acc =
      if is_zero r.pct_of_seller_commission
      then ok acc
      else if ltb (length f.upline_chain) r.level
      then ok acc
      else offer f r (from_level r.level f.upline_chain) acc

  unfoldable pub add_levels :
      Frame D → List (LevelRate D) → AccrualResult D → Result Misconfigured (AccrualResult D)
  unfolding add_level
  add_levels f [] acc = ok acc
  add_levels f (r ∷ rs) acc = add_level f r acc >>= add_levels f rs

  -- `entries.reduce((sum, e) => sum.plus(e.grossAmount), new Decimal(0))`, from a running sum
  unfoldable pub sum_gross : D → List (CommissionEntryResult D) → D
  sum_gross sum [] = sum
  sum_gross sum (e ∷ es) = sum_gross (plus sum e.gross_amount) es

  unfoldable pub ceiling : AccrualInput D → D
  ceiling input = div (mul input.commissionable_value input.scheme.max_total_pct) hundred

  abbrev pub check_ceiling :
      AccrualInput D → AccrualResult D → Result Misconfigured (AccrualResult D)
  check_ceiling input acc =
      if greater_than (sum_gross nought acc.entries) (ceiling input)
      then err over_ceiling
      else ok acc

  abbrev pub frame_of :
      AccrualInput D
      → List ResolvedUplineNode
      → Option GradeAssignmentRecord
      → Result Misconfigured (Frame D)
  frame_of input chain none = err no_grade
  frame_of input chain (some seller_grade) = do
    grade_rate ←
        or_throw
          (find (λ (r : GradeRate D). r.grade_code == seller_grade.grade_code)
            input.scheme.grade_rates)
          no_rate
    ok (record {
      input = input;
      seller_grade_code = seller_grade.grade_code;
      seller_grade_rank = seller_grade.grade_rank;
      grade_rate = grade_rate;
      self_amt =
          round2
            (apply_grade_rate grade_rate input.commissionable_value input.saleable_area_at_booking);
      upline_chain = chain;
    })

  -- What `accrue` computes before the loop over the levels.
  unfoldable pub frame : AccrualInput D → OrgSnapshot → Result Misconfigured (Frame D)
  frame input org =
      frame_of input
        (upline_chain_as_of input.seller_associate_id input.booking_date input.scheme.max_level org)
        (grade_as_of (or_nil (org.grade_history input.seller_associate_id)) input.booking_date)

  abbrev pub start : Frame D → AccrualResult D
  start f = record { entries = self_entry f ∷ []; breakage = nought }

  unfoldable pub accrue : AccrualInput D → OrgSnapshot → Result Misconfigured (AccrualResult D)
  accrue input org = do
    f ← frame input org
    acc ← add_levels f input.scheme.level_rates (start f)
    check_ceiling input acc

  -- What a successful accrual went through.
  pub accrue-eq_ok :
      (input : AccrualInput D) (org : OrgSnapshot) {r : AccrualResult D}
      → accrue input org ≡ ok r
      → (f : Frame D) × (frame input org ≡ ok f)
        × (add_levels f input.scheme.level_rates (start f) ≡ ok r)
        × (greater_than (sum_gross nought r.entries) (ceiling input) ≡ false)
  unfolding accrue
  accrue-eq_ok input org {r} e =
      let (f, framed, rest) = >>=-eq-ok (frame input org) _ e in
      let (acc, looped, checked) =
        >>=-eq-ok (add_levels f input.scheme.level_rates (start f)) _ rest in
      let (same, under) = check_ceiling-eq_ok input acc checked in
      (f, framed, looped ∙ ap ok same, rw (← same) under)
    where
      check_ceiling-eq_ok :
          (i : AccrualInput D) (acc : AccrualResult D)
          → check_ceiling i acc ≡ ok r
          → (acc ≡ r) × (greater_than (sum_gross nought acc.entries) (ceiling i) ≡ false)
      check_ceiling-eq_ok i acc h = ground arith
