-- ===== src/Receipts/Verify.antt =====
-- packages/services/src/receipts.ts: `enterReceipt`, `verifyReceipt` and `clearReceipt`.
pub mod Gate
pub mod Clear
use desire_mlm_project.Base.{
  ℕ, suc, zero, ◌+◌, Bool, true, false, not, Option, none, some, List, [], ◌∷◌, ◌++◌, ◌==◌, ◌&&◌,
  any, if◌then◌else◌, Result, ok, err, ◌>>=◌, ◌>>◌, or_throw, throw_if,
}
use desire_mlm_project.Decimal.{Decimal}
use desire_mlm_project.Table.{Table, update, insert, count, find_first}
use desire_mlm_project.Payouts.Store.{AuditContext}
use desire_mlm_project.Payouts.Grouping.{is_taken}
use desire_mlm_project.Receipts.Store.{
  ReceiptStatus, entered, verified, cleared, bounced, cancelled, Receipt, Booking, HierarchyPath,
  receipt_created, receipt_updated, Store, Catalogue, ReceiptError, actor_required,
  other_organisation, not_permitted, booking_not_found, receipt_number_conflict,
  same_enterer_verifier, seller_or_upline_verify, invalid_receipt_state,
}
use desire_mlm_project.Receipts.Release.{release_commission_for_booking}
use desire_mlm_project.Receipts.Demands.{receipt_for}

abbrev pub is_entered : ReceiptStatus → Bool
is_entered entered = true
is_entered _ = false

abbrev pub is_verified : ReceiptStatus → Bool
is_verified verified = true
is_verified _ = false

-- packages/services/src/rbac.ts: `candidate.path.includes(`/${actorAssociateId}/`)` asks for the
-- associate among those of the path.
unfoldable pub is_in_scope : ℕ → HierarchyPath → Bool
is_in_scope actor_associate_id candidate =
    if candidate.associate_id == actor_associate_id
    then true
    else any (λ id. id == actor_associate_id) candidate.path

abbrev pub sees : Option ℕ → Option HierarchyPath → Bool
sees none placement = false
sees (some associate) none = false
sees (some associate) (some placement) = is_in_scope associate placement

module _ {D : Type 0} where
  -- Whether the actor's associate is the booking's seller or above it.
  unfoldable pub is_seller_or_upline : Catalogue D → ℕ → Booking D → Bool
  unfolding is_in_scope
  is_seller_or_upline c actor booking =
      sees (c.associate_of_user actor) (c.current_placement booking.selling_associate_id)

  abbrev pub has_receipt_number : ℕ → ℕ → Receipt D → Bool
  has_receipt_number org_id number r = r.org_id == org_id && r.receipt_number == number

  -- The attempts at `@@unique([orgId, receiptNumber])`, from `number` on, with `left` to go.
  unfoldable pub allocate_receipt_number : Table (Receipt D) → ℕ → (left number : ℕ) → Option ℕ
  allocate_receipt_number receipts org_id zero number = none
  allocate_receipt_number receipts org_id (suc left) number =
      let rest = allocate_receipt_number receipts org_id left (number + 1) in
      if is_taken (find_first (has_receipt_number org_id number) receipts)
      then rest
      else some number

-- `new_receipt_id` is the identifier that the database gives to the row.
pub record EnterReceiptParams (D : Type 0) : Type 0 where
  pub booking_id : ℕ
  pub amount : D
  pub received_on : ℕ
  pub audit : AuditContext
  pub new_receipt_id : ℕ

module _ {D : Type 0} where
  abbrev pub new_receipt : EnterReceiptParams D → (org_id actor number : ℕ) → Receipt D
  new_receipt params org_id actor number = record {
    org_id = org_id;
    booking_id = params.booking_id;
    receipt_number = number;
    amount = params.amount;
    status = entered;
    received_on = params.received_on;
    cleared_on = none;
    entered_by_id = actor;
    verified_by_id = none;
    verified_at = none;
  }

  unfoldable pub enter_receipt :
      Catalogue D → Store D → EnterReceiptParams D → Result ReceiptError (Store D)
  unfolding allocate_receipt_number
  enter_receipt c s params = do
    actor ← or_throw params.audit.actor_id actor_required
    booking ← or_throw (s.bookings.row params.booking_id) booking_not_found
    throw_if (not (booking.org_id == params.audit.org_id)) other_organisation
    throw_if (not (c.may_enter actor booking.project_id)) not_permitted
    number ←
        or_throw
          (allocate_receipt_number s.receipts params.audit.org_id 5
            (count (λ (r : Receipt D). r.org_id == params.audit.org_id) s.receipts + 1))
          receipt_number_conflict
    ok (record s {
      receipts =
          insert params.new_receipt_id (new_receipt params params.audit.org_id actor number)
            s.receipts;
      audit_log = s.audit_log ++ ((params.audit, receipt_created params.new_receipt_id) ∷ []);
    })

  -- The receipt is written, with the audit row that shows it before and after.
  abbrev pub put_receipt : ℕ → AuditContext → (before after : Receipt D) → Store D → Store D
  put_receipt receipt_id audit before after s = record s {
    receipts = update receipt_id (λ _. after) s.receipts;
    audit_log = s.audit_log ++ ((audit, receipt_updated receipt_id before after) ∷ []);
  }

  abbrev pub verification : (actor now : ℕ) → Receipt D → Receipt D
  verification actor now r = record r {
    status = verified;
    verified_by_id = some actor;
    verified_at = some now;
  }

  unfoldable pub verify_receipt :
      Catalogue D → Store D → ℕ → AuditContext → ℕ → Result ReceiptError (Store D)
  unfolding receipt_for is_seller_or_upline
  verify_receipt c s receipt_id audit now = do
    (actor, receipt, booking) ← receipt_for c s receipt_id audit
    throw_if (not (is_entered receipt.status)) (invalid_receipt_state receipt.status)
    throw_if (receipt.entered_by_id == actor) same_enterer_verifier
    throw_if (is_seller_or_upline c actor booking) seller_or_upline_verify
    ok (put_receipt receipt_id audit receipt (verification actor now receipt) s)

module _ {D : Type 0} ⦃d : Decimal D⦄ where
  abbrev pub clearance : ℕ → Receipt D → Receipt D
  clearance cleared_on r = record r { status = cleared; cleared_on = some cleared_on }

  abbrev pub log_clearance :
      ℕ → AuditContext → (before after : Receipt D) → Store D → Result ReceiptError (Store D)
  log_clearance receipt_id audit before after s = ok (record s {
    audit_log = s.audit_log ++ ((audit, receipt_updated receipt_id before after) ∷ []);
  })

  abbrev pub mark_cleared : ℕ → ℕ → Store D → Store D
  mark_cleared receipt_id cleared_on s = record s {
    receipts = update receipt_id (clearance cleared_on) s.receipts;
  }

  unfoldable pub clear_receipt :
      Catalogue D → Store D → ℕ → AuditContext → (cleared_on : ℕ) → Result ReceiptError (Store D)
  unfolding receipt_for release_commission_for_booking
  clear_receipt c s receipt_id audit cleared_on = do
    (actor, receipt, booking) ← receipt_for c s receipt_id audit
    throw_if (not (is_verified receipt.status)) (invalid_receipt_state receipt.status)
    after ←
        release_commission_for_booking c receipt.booking_id booking receipt_id
          (mark_cleared receipt_id cleared_on s)
    log_clearance receipt_id audit receipt (clearance cleared_on receipt) after
