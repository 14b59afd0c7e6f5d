-- ===== src/Receipts/Verify/Clear.antt =====
-- packages/services/src/receipts.ts: what `clearReceipt` does to receipts, allocations and demands.
use desire_mlm_project.Base.{
  ℕ, ◌≡◌, ◌≢◌, refl, sym, true, some, List, [], ◌∷◌, arith, inl, inr, ◌∙◌, Bool-cases, ok, err,
  Result-cases, ok-injective, ap,
}
use desire_mlm_project.Decimal.{Decimal}
use desire_mlm_project.Table.{Table}
use desire_mlm_project.Payouts.Store.{AuditContext}
use desire_mlm_project.Receipts.Store.{
  ReceiptStatus, entered, verified, cleared, bounced, cancelled, Receipt, ReceiptAllocation, Demand,
  Booking, EarnedEntry, Store, Catalogue, ReceiptError,
}
use desire_mlm_project.Receipts.Release.{
  release_entry, release_pro_rata, release_commission_for_booking, is_pro_rata, collection_pct,
  sum_cleared, entries_of,
}
use desire_mlm_project.Receipts.Demands.{receipt_for}
use desire_mlm_project.Receipts.Verify.{
  clear_receipt, is_verified, mark_cleared, clearance, log_clearance,
}
use desire_mlm_project.Receipts.Verify.Gate.{receipt_for-eq_ok}

verified_of : (status : ReceiptStatus) → is_verified status ≡ true → status ≡ verified
verified_of entered h = cc
verified_of verified h = refl
verified_of cleared h = cc
verified_of bounced h = cc
verified_of cancelled h = cc

-- The tables that a release does not write.
abbrev Unwritten : Type 0 → Type 0
Unwritten D = Table (Receipt D) × List (ReceiptAllocation D) × Table (Demand D)

abbrev unwritten : {D : Type 0} → Store D → Unwritten D
unwritten s = (s.receipts, s.allocations, s.demands)

module _ {D : Type 0} ⦃d : Decimal D⦄ where
  open d use {zero as nought, hundred, mul, div, less_than_or_equal_to}

  release_entry-unwritten :
      (trigger_type trigger_ref entry_id : ℕ) (entry : EarnedEntry D) (pct : D) (s : Store D)
      {s' : Store D}
      → release_entry trigger_type trigger_ref entry_id entry pct s ≡ ok s'
      → unwritten s' ≡ unwritten s
  unfolding release_entry
  release_entry-unwritten trigger_type trigger_ref entry_id entry pct s h = ground arith

  release_pro_rata-unwritten :
      (c : Catalogue D) (receipt_id : ℕ) (pct : D) (es : List (ℕ × EarnedEntry D)) (s : Store D)
      {s' : Store D}
      → release_pro_rata c receipt_id pct es s ≡ ok s'
      → unwritten s' ≡ unwritten s
  unfolding release_pro_rata
  release_pro_rata-unwritten c receipt_id pct [] s h = ground arith
  release_pro_rata-unwritten c receipt_id pct (e ∷ es) s {s'} h =
      elim (Bool-cases (is_pro_rata (c.schedule e.1.scheme_id))) [
        | inr other ↦ release_pro_rata-unwritten c receipt_id pct es s {s' = s'} (ground arith)
        | inl pays ↦ elim (Result-cases (release_entry collection_pct receipt_id e.0 e.1 pct s)) [
          | inl (_, refused) ↦ absurd (ground arith)
          | inr (mid, done) ↦
              release_pro_rata-unwritten c receipt_id pct es mid {s' = s'} (ground arith)
              ∙ release_entry-unwritten collection_pct receipt_id e.0 e.1 pct s done
        ]
      ]

  release_commission_for_booking-unwritten :
      (c : Catalogue D) (booking_id : ℕ) (booking : Booking D) (receipt_id : ℕ) (s : Store D)
      {s' : Store D}
      → release_commission_for_booking c booking_id booking receipt_id s ≡ ok s'
      → unwritten s' ≡ unwritten s
  unfolding release_commission_for_booking
  release_commission_for_booking-unwritten c booking_id booking receipt_id s {s'} h =
      elim (Bool-cases (less_than_or_equal_to booking.agreement_value nought)) [
        | inl nothing ↦ ground arith
        | inr sold ↦
            release_pro_rata-unwritten c receipt_id
              (mul
                (div (sum_cleared s.receipts booking_id nought s.allocations)
                  booking.agreement_value)
                hundred)
              (entries_of booking_id s) s {s' = s'} (ground arith)
      ]

  pub clear_receipt-eq_ok :
      (c : Catalogue D) (s : Store D) (receipt_id : ℕ) (audit : AuditContext) (cleared_on : ℕ)
      {after : Store D}
      → clear_receipt c s receipt_id audit cleared_on ≡ ok after
      → (r : Receipt D) × (s.receipts.row receipt_id ≡ some r)
        × (is_verified r.status ≡ true)
        × (unwritten after ≡ unwritten (mark_cleared receipt_id cleared_on s))
  unfolding clear_receipt
  clear_receipt-eq_ok c s receipt_id audit cleared_on {after} h =
      elim (Result-cases (receipt_for c s receipt_id audit)) [
        | inl (_, refused) ↦ absurd (ground arith)
        | inr ((actor, r, booking), found) ↦
            let (_, is_r, _, _) = receipt_for-eq_ok c s receipt_id audit found in
            elim (Result-cases (
              release_commission_for_booking c r.booking_id booking receipt_id
                (mark_cleared receipt_id cleared_on s))) [
                  | inl (_, refused) ↦ absurd (ground arith)
                  | inr (mid, done) ↦ (
                    r,
                    is_r,
                    ground arith,
                    logged mid r (ground arith)
                        ∙ release_commission_for_booking-unwritten c r.booking_id booking receipt_id
                            (mark_cleared receipt_id cleared_on s) done,
                  )
                ]
      ]
    where
      logged :
          (mid : Store D) (r : Receipt D)
          → log_clearance receipt_id audit r (clearance cleared_on r) mid ≡ ok after
          → unwritten after ≡ unwritten mid
      logged mid r e = ap unwritten (sym (ok-injective e))

  -- A clearance is of a VERIFIED receipt. It makes it CLEARED on the given day, whatever commission it
  -- releases, and changes no other receipt, no allocation and no demand; a second one is refused.
  pub clear_receipt_lem :
      (c : Catalogue D) (s : Store D) (receipt_id : ℕ) (audit : AuditContext) (cleared_on : ℕ)
      {after : Store D} (again : AuditContext) (later : ℕ)
      → clear_receipt c s receipt_id audit cleared_on ≡ ok after
      → (r : Receipt D) × (s.receipts.row receipt_id ≡ some r)
        × (r.status ≡ verified)
        × (after.receipts.row receipt_id ≡ some (clearance cleared_on r))
        × ((k : ℕ) → k ≢ receipt_id → after.receipts.row k ≡ s.receipts.row k)
        × (after.allocations ≡ s.allocations)
        × (after.demands ≡ s.demands)
        × ((e : ReceiptError) × (clear_receipt c after receipt_id again later ≡ err e))
  clear_receipt_lem c s receipt_id audit cleared_on {after} again later h =
      let (r, is_r, was_verified, same) = clear_receipt-eq_ok c s receipt_id audit cleared_on h in
      let row = ap (λ (t : Unwritten D). t.0.row receipt_id) same ∙ rw is_r (ground arith) in
      (
        r,
        is_r,
        verified_of r.status was_verified,
        row,
        λ k ne. ap (λ (t : Unwritten D). t.0.row k) same ∙ ground arith,
        ap (λ (t : Unwritten D). t.1) same,
        ap (λ (t : Unwritten D). t.2) same,
        elim (Result-cases (clear_receipt c after receipt_id again later)) [
          | inl refused ↦ refused
          | inr (last, h') ↦
              let (r', is_r', still, _) = clear_receipt-eq_ok c after receipt_id again later h' in
              absurd (ground (arith, row))
        ],
      )
