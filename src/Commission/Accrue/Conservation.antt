-- ===== src/Commission/Accrue/Conservation.antt =====
-- packages/commission/src/accrue.ts: the override money is paid out or reported as breakage.
use desire_mlm_project.Base.{
  ◌≡◌, refl, Option, none, some, List, [], ◌∷◌, ◌++◌, arith, ap, sym, ◌∙◌, ltb, length,
  if◌then◌else◌, ok, >>=-eq-ok, ok-injective,
}
use desire_mlm_project.Decimal.{Decimal, IsExact}
use desire_mlm_project.Decimal.Laws.{plus_assoc, plus_comm, plus_zero, plus_right_comm}
use desire_mlm_project.Commission.Types.{
  LevelRate, AccrualInput, CommissionEntryResult, AccrualResult, OrgSnapshot, ResolvedUplineNode,
}
use desire_mlm_project.Commission.Entries.{Frame, override_amount, override_entry, self_entry}
use desire_mlm_project.Commission.Accrue.{
  Placement, paid, consumed, walked_off, settle, offer, from_level, place, add_level, add_levels,
  sum_gross, frame, start, accrue, accrue-eq_ok,
}

module _ {D : Type 0} ⦃d : Decimal D⦄ where
  open d use {zero as nought, plus, is_zero}

  -- The money on offer: the amount of every level that has a percentage and an upline at its height.
  pub offered : Frame D → List (LevelRate D) → D
  offered f [] = nought
  offered f (r ∷ rs) =
      let rest = offered f rs in
      if is_zero r.pct_of_seller_commission
      then rest
      else if ltb (length f.upline_chain) r.level
      then rest
      else plus (override_amount f r.pct_of_seller_commission) rest

  -- What has been paid or retained so far.
  abbrev pub accounted : AccrualResult D → D
  accounted acc = plus (sum_gross nought acc.entries) acc.breakage

  sum_gross-append :
      (sum : D) (es : List (CommissionEntryResult D)) (e : CommissionEntryResult D)
      → sum_gross sum (es ++ (e ∷ [])) ≡ plus (sum_gross sum es) e.gross_amount
  unfolding sum_gross
  sum_gross-append sum [] e = refl
  sum_gross-append sum (e' ∷ es) e = sum_gross-append (plus sum e'.gross_amount) es e

  module _ ⦃x : IsExact D⦄ (f : Frame D) where
    accounted-settle :
        (r : LevelRate D) (p : Placement) (acc : AccrualResult D)
        → accounted (settle f r p acc)
          ≡ plus (accounted acc) (override_amount f r.pct_of_seller_commission)
    unfolding override_entry
    accounted-settle r (paid n) acc =
        ap (λ sum. plus sum acc.breakage)
          (sum_gross-append nought acc.entries (
            override_entry f n r.level r.pct_of_seller_commission
              (override_amount f r.pct_of_seller_commission)))
        ∙ plus_right_comm _ _ _
    accounted-settle r consumed acc = sym (plus_assoc _ _ _)
    accounted-settle r walked_off acc = sym (plus_assoc _ _ _)

    accounted-offer :
        (r : LevelRate D) (above : Option (List ResolvedUplineNode)) (acc : AccrualResult D)
        {acc' : AccrualResult D}
        → offer f r above acc ≡ ok acc'
        → accounted acc' ≡ plus (accounted acc) (override_amount f r.pct_of_seller_commission)
    accounted-offer r none acc e = cc
    accounted-offer r (some above) acc e =
        rw (← ok-injective e) (accounted-settle r (place f.input.scheme above) acc)

    -- The two ways in which a round leaves everything as it was, and the one that offers the money.
    accounted-add_level :
        (r : LevelRate D) (rs : List (LevelRate D)) (acc acc' : AccrualResult D)
        → add_level f r acc ≡ ok acc'
        → plus (accounted acc') (offered f rs) ≡ plus (accounted acc) (offered f (r ∷ rs))
    unfolding add_level offered
    accounted-add_level r rs acc acc' e = ground (
      arith,
      accounted-offer r (from_level r.level f.upline_chain) acc {acc' = acc'},
      plus_assoc (accounted acc) (override_amount f r.pct_of_seller_commission) (offered f rs),
    )

    accounted-add_levels :
        (rs : List (LevelRate D)) (acc : AccrualResult D) {acc' : AccrualResult D}
        → add_levels f rs acc ≡ ok acc'
        → accounted acc' ≡ plus (accounted acc) (offered f rs)
    unfolding add_levels offered
    accounted-add_levels [] acc e = rw (← ok-injective e) (sym (plus_zero _))
    accounted-add_levels (r ∷ rs) acc {acc'} e =
        let (mid, first, rest) = >>=-eq-ok (add_level f r acc) (add_levels f rs) e in
        accounted-add_levels rs mid rest ∙ accounted-add_level r rs acc mid first

    accounted-start : accounted (start f) ≡ f.self_amt
    unfolding sum_gross self_entry
    accounted-start = plus_zero _ ∙ plus_comm _ _ ∙ plus_zero _

  -- A successful accrual accounts for all override money: what its entries pay and the breakage that
  -- it reports add up to the seller's own commission and the amounts of all levels on offer.
  pub accrue-conserves :
      ⦃x : IsExact D⦄ (input : AccrualInput D) (org : OrgSnapshot) {r : AccrualResult D}
      → accrue input org ≡ ok r
      → (f : Frame D) × (frame input org ≡ ok f)
        × (plus (sum_gross nought r.entries) r.breakage
            ≡ plus f.self_amt (offered f input.scheme.level_rates))
  accrue-conserves input org e =
      let (f, framed, looped, _) = accrue-eq_ok input org e in
      (
        f,
        framed,
        accounted-add_levels f input.scheme.level_rates (start f) looped
            ∙ ap (λ s. plus s (offered f input.scheme.level_rates)) (accounted-start f),
      )
