-- ===== src/Commission/Accrue/Reproducible.antt =====
-- packages/commission/src/accrue.ts: what accrues for a past booking, after later changes of
-- hierarchy and grades.
use desire_mlm_project.Base.{◌≡◌, refl, List, Option, none, some}
use desire_mlm_project.Decimal.{Decimal}
use desire_mlm_project.Commission.Types.{
  AccrualInput, GradeAssignmentRecord, OrgSnapshot, ResolvedUplineNode,
}
use desire_mlm_project.Commission.Resolve.Reproducible.{
  IsLater, GradeKept, Agree, grade_as_of-Agree, upline_chain-IsLater,
}
use desire_mlm_project.Commission.Accrue.{frame_of, frame, accrue}

module _ {D : Type 0} ⦃d : Decimal D⦄ (input : AccrualInput D) where
  frame_of-Agree :
      (chain : List ResolvedUplineNode) (g g' : Option GradeAssignmentRecord)
      → Agree (GradeKept input.booking_date) g g'
      → frame_of input chain g' ≡ frame_of input chain g
  frame_of-Agree chain none none a = refl
  frame_of-Agree chain (some g) (some g') a = rw (a.code_kept, a.rank_kept)
  frame_of-Agree chain none (some g') a = absurd a
  frame_of-Agree chain (some g) none a = absurd a

  frame-IsLater :
      {old new : OrgSnapshot}
      → IsLater input.booking_date old new
      → frame input new ≡ frame input old
  unfolding frame
  frame-IsLater {old} {new} later = rw (upline_chain-IsLater input.booking_date later) (
      frame_of-Agree _ _ _
        (grade_as_of-Agree input.booking_date _ _ (later.grades_evolve input.seller_associate_id)))

  -- The same booking under the same scheme, with its rates, accrues the same result, errors included,
  -- whatever the organisation does to its hierarchy and its grade assignments after the booking date
  -- (close open rows later than that date, add rows that begin later), with the associates' identities
  -- and statuses unchanged.
  pub accrue-IsLater :
      {old new : OrgSnapshot}
      → IsLater input.booking_date old new
      → accrue input new ≡ accrue input old
  unfolding accrue
  accrue-IsLater later = rw (frame-IsLater later)
