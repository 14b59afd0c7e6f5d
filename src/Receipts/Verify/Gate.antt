-- ===== src/Receipts/Verify/Gate.antt =====
-- packages/services/src/receipts.ts: the maker-checker gate of `verifyReceipt`.
use mathlib.Core.Path.{subst}
use desire_mlm_project.Base.{
  ℕ, ◌≡◌, ◌≢◌, refl, true, false, none, some, ◌==◌, arith, inl, inr, any, ◌∙◌, Option-cases, ok,
  err, Result-cases, ap,
}
use desire_mlm_project.Payouts.Store.{AuditContext}
use desire_mlm_project.Receipts.Store.{
  ReceiptStatus, entered, verified, cleared, bounced, cancelled, Receipt, Booking, HierarchyPath,
  Store, Catalogue, ReceiptError,
}
use desire_mlm_project.Receipts.Demands.{receipt_for}
use desire_mlm_project.Receipts.Verify.{
  verify_receipt, is_entered, is_seller_or_upline, put_receipt, verification,
}

entered_of : (status : ReceiptStatus) → is_entered status ≡ true → status ≡ entered
entered_of entered h = refl
entered_of verified h = cc
entered_of cleared h = cc
entered_of bounced h = cc
entered_of cancelled h = cc

module _ {D : Type 0} where
  pub receipt_for-eq_ok :
      (c : Catalogue D) (s : Store D) (receipt_id : ℕ) (audit : AuditContext) {actor : ℕ}
      {r : Receipt D} {booking : Booking D}
      → receipt_for c s receipt_id audit ≡ ok (actor, r, booking)
      → (audit.actor_id ≡ some actor)
        × (s.receipts.row receipt_id ≡ some r)
        × (s.bookings.row r.booking_id ≡ some booking)
        × (c.may_verify actor booking.project_id ≡ true)
  unfolding receipt_for
  receipt_for-eq_ok c s receipt_id audit h = elim (Option-cases audit.actor_id) [
    | inl missing ↦ absurd (ground arith)
    | inr (a, is_a) ↦ elim (Option-cases (s.receipts.row receipt_id)) [
      | inl missing ↦ absurd (ground arith)
      | inr (q, is_q) ↦ elim (Option-cases (s.bookings.row q.booking_id)) [
        | inl missing ↦ absurd (ground arith)
        | inr (b, is_b) ↦ ground arith
      ]
    ]
  ]

  pub verify_receipt-eq_ok :
      (c : Catalogue D) (s : Store D) (receipt_id : ℕ) (audit : AuditContext) (now : ℕ)
      {after : Store D}
      → verify_receipt c s receipt_id audit now ≡ ok after
      → (actor : ℕ) × (r : Receipt D) × (booking : Booking D) × (receipt_for c s receipt_id audit
          ≡ ok (actor, r, booking))
        × (is_entered r.status ≡ true)
        × (r.entered_by_id ≢ actor)
        × (is_seller_or_upline c actor booking ≡ false)
        × (after ≡ put_receipt receipt_id audit r (verification actor now r) s)
  unfolding verify_receipt
  verify_receipt-eq_ok c s receipt_id audit now h =
      elim (Result-cases (receipt_for c s receipt_id audit)) [
        | inl (e, refused) ↦ absurd (ground arith)
        | inr ((actor, r, booking), found) ↦
            (actor, r, booking, found, ground arith, ground arith, ground arith, ground arith)
      ]

  seller_is_other :
      (c : Catalogue D) (actor : ℕ) (booking : Booking D) (associate : ℕ)
      (placement : HierarchyPath)
      → is_seller_or_upline c actor booking ≡ false
      → c.associate_of_user actor ≡ some associate
      → c.current_placement booking.selling_associate_id ≡ some placement
      → (placement.associate_id ≢ associate) × (any (λ id. id == associate) placement.path ≡ false)
  unfolding is_seller_or_upline
  seller_is_other c actor booking associate placement out who placed = (ground arith, ground arith)

  -- A verification is of an ENTERED receipt, by a permitted actor who did not enter it. Where the actor
  -- is an associate and the booking's seller has an open placement, the actor is neither the seller nor on
  -- the path above the seller; a placement that is found for an associate is that associate's. The
  -- verification makes the receipt VERIFIED in the actor's name, and changes no other receipt.
  pub verify_receipt_lem :
      (c : Catalogue D) (s : Store D) (receipt_id : ℕ) (audit : AuditContext) (now : ℕ)
      {after : Store D}
      → ((seller : ℕ) (placement : HierarchyPath)
          → c.current_placement seller ≡ some placement
          → placement.associate_id ≡ seller)
      → verify_receipt c s receipt_id audit now ≡ ok after
      → (actor : ℕ) × (r : Receipt D) × (booking : Booking D) × (audit.actor_id ≡ some actor)
        × (s.receipts.row receipt_id ≡ some r)
        × (s.bookings.row r.booking_id ≡ some booking)
        × (c.may_verify actor booking.project_id ≡ true)
        × (r.status ≡ entered)
        × (r.entered_by_id ≢ actor)
        × ((associate : ℕ) (placement : HierarchyPath)
            → c.associate_of_user actor ≡ some associate
            → c.current_placement booking.selling_associate_id ≡ some placement
            → (booking.selling_associate_id ≢ associate)
              × (any (λ id. id == associate) placement.path ≡ false))
        × (after.receipts.row receipt_id ≡ some (verification actor now r))
        × ((k : ℕ) → k ≢ receipt_id → after.receipts.row k ≡ s.receipts.row k)
  verify_receipt_lem c s receipt_id audit now {after} own h =
      let (actor, r, booking, found, is_new, other, out, same) =
        verify_receipt-eq_ok c s receipt_id audit now h in
      let (is_actor, is_r, is_booking, may) = receipt_for-eq_ok c s receipt_id audit found in
      (
        actor,
        r,
        booking,
        is_actor,
        is_r,
        is_booking,
        may,
        entered_of r.status is_new,
        other,
        λ associate placement who placed.
            let (ne, above) = seller_is_other c actor booking associate placement out who placed in
            (
              subst (λ id. id ≢ associate) (own booking.selling_associate_id placement placed) ne,
              above,
            ),
        ap (λ (t : Store D). t.receipts.row receipt_id) same ∙ rw is_r (ground arith),
        λ k ne. ap (λ (t : Store D). t.receipts.row k) same ∙ ground arith,
      )

  -- Where the booking's seller has no open placement, a permitted actor who did not enter the ENTERED
  -- receipt verifies it, also the seller's own user and those of the seller's former uplines.
  pub verify_receipt_unplaced :
      (c : Catalogue D) (s : Store D) (receipt_id : ℕ) (audit : AuditContext) (now : ℕ) {actor : ℕ}
      {r : Receipt D} {booking : Booking D}
      → receipt_for c s receipt_id audit ≡ ok (actor, r, booking)
      → r.status ≡ entered
      → r.entered_by_id ≢ actor
      → c.current_placement booking.selling_associate_id ≡ none
      → (after : Store D) × (verify_receipt c s receipt_id audit now ≡ ok after)
        × (after.receipts.row receipt_id ≡ some (verification actor now r))
  unfolding verify_receipt is_seller_or_upline
  verify_receipt_unplaced c s receipt_id audit now {actor} {r} {booking} found is_new other
        unplaced =
      let (_, is_r, _, _) = receipt_for-eq_ok c s receipt_id audit found in
      elim (Option-cases (c.associate_of_user actor)) [
        | inl nobody ↦ (
          put_receipt receipt_id audit r (verification actor now r) s,
          ground arith,
          ground arith,
        )
        | inr (associate, who) ↦ (
          put_receipt receipt_id audit r (verification actor now r) s,
          ground arith,
          ground arith,
        )
      ]

  -- A receipt is verified at most once: after a verification every further one is refused.
  pub verify_receipt_once :
      (c : Catalogue D) (s : Store D) (receipt_id : ℕ) (audit : AuditContext) (now : ℕ)
      {after : Store D} (again : AuditContext) (later : ℕ)
      → verify_receipt c s receipt_id audit now ≡ ok after
      → (e : ReceiptError) × (verify_receipt c after receipt_id again later ≡ err e)
  verify_receipt_once c s receipt_id audit now {after} again later h =
      let (actor, r, booking, found, is_new, other, out, same) =
        verify_receipt-eq_ok c s receipt_id audit now h in
      let (_, is_r, _, _) = receipt_for-eq_ok c s receipt_id audit found in
      elim (Result-cases (verify_receipt c after receipt_id again later)) [
        | inl refused ↦ refused
        | inr (last, h') ↦
            let (_, r', _, found', is_new', _, _, _) =
              verify_receipt-eq_ok c after receipt_id again later h' in
            let (_, is_r', _, _) = receipt_for-eq_ok c after receipt_id again found' in
            absurd (ground (arith, ap (λ (t : Store D). t.receipts.row receipt_id) same))
      ]
