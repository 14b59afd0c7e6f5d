-- ===== src/Ledger/Disputes.antt =====
-- packages/services/src/commission.ts: `raiseDispute` and `resolveDispute`. The identifiers that the database
-- gives the new rows are arguments.
pub mod RoundTrip
use desire_mlm_project.Base.{
  ℕ, Bool, true, false, not, ◌&&◌, Option, none, some, List, [], ◌∷◌, ◌++◌, ◌==◌, any,
  if◌then◌else◌, Result, ok, ◌>>=◌, ◌>>◌, or_throw, throw_if,
}
use desire_mlm_project.Decimal.{Decimal}
use desire_mlm_project.Table.{Table, update, insert, count}
use desire_mlm_project.Payouts.Store.{EntryStatus, accrued, payable, on_hold, AuditContext}
use desire_mlm_project.Receipts.Store.{CommissionRelease}
use desire_mlm_project.Receipts.Release.{is_unreversed}
use desire_mlm_project.Ledger.Store.{
  ApprovalStatus, pending, approved, rejected, withdrawn, credit, debit, Resolution, upheld,
  dismissed, LedgerEntry, CommissionDispute, Adjustment, dispute_created, dispute_resolved,
  LedgerStore, LedgerCatalogue, LedgerError, actor_required, other_organisation, not_permitted,
  entry_not_found, dispute_not_found, duplicate_dispute, dispute_already_resolved,
}
use desire_mlm_project.Ledger.Scope.{explain_entry}

abbrev pub is_pending : ApprovalStatus → Bool
is_pending pending = true
is_pending _ = false

abbrev pub is_open_for : ℕ → CommissionDispute → Bool
is_open_for entry_id x = x.entry_id == entry_id && is_pending x.status

abbrev pub status_of : Resolution → ApprovalStatus
status_of upheld = approved
status_of dismissed = rejected

abbrev pub new_dispute : (org_id entry_id actor description : ℕ) → CommissionDispute
new_dispute org_id entry_id actor description = record {
  org_id = org_id;
  entry_id = entry_id;
  raised_by_id = actor;
  description = description;
  status = pending;
  resolved_by_id = none;
  resolved_at = none;
  adjustment_id = none;
}

abbrev pub settle_dispute :
    Resolution → (actor now : ℕ) → Option ℕ → CommissionDispute → CommissionDispute
settle_dispute resolution actor now adjustment_id x = record x {
  status = status_of resolution;
  resolved_by_id = some actor;
  resolved_at = some now;
  adjustment_id = adjustment_id;
}

module _ {D : Type 0} where
  abbrev pub set_entry_status : ℕ → EntryStatus → LedgerStore D → LedgerStore D
  set_entry_status entry_id status s = record s {
    entries = update entry_id (λ (e : LedgerEntry D). record e { status = status }) s.entries;
  }

  unfoldable pub raise_dispute :
      LedgerCatalogue D
      → LedgerStore D
      → (dispute_id entry_id description : ℕ) → AuditContext
      → Result LedgerError (LedgerStore D)
  unfolding explain_entry
  raise_dispute c s dispute_id entry_id description audit = do
    actor ← or_throw audit.actor_id actor_required
    entry ← explain_entry c s entry_id audit
    throw_if (not (count (is_open_for entry_id) s.disputes == 0)) duplicate_dispute
    let held = set_entry_status entry_id on_hold s
    ok (record held {
      disputes = insert dispute_id (new_dispute audit.org_id entry_id actor description) s.disputes;
      audit_log = s.audit_log ++ ((audit, dispute_created dispute_id entry_id description) ∷ []);
    })

  abbrev pub is_live_release_of : ℕ → CommissionRelease D → Bool
  is_live_release_of entry_id r = r.entry_id == entry_id && is_unreversed r.reversed_at

  -- PAYABLE if there is a release that is not reversed, ACCRUED otherwise
  abbrev pub restored_status : ℕ → List (CommissionRelease D) → EntryStatus
  restored_status entry_id releases =
      if any (is_live_release_of entry_id) releases then payable else accrued

module _ {D : Type 0} ⦃d : Decimal D⦄ where
  open d use {abs, is_negative}

  abbrev pub new_adjustment : (org_id associate_id actor now : ℕ) → D → Adjustment D
  new_adjustment org_id associate_id actor now amount = record {
    org_id = org_id;
    associate_id = associate_id;
    type = if is_negative amount then debit else credit;
    amount = abs amount;
    requested_by_id = actor;
    approved_by_id = actor;
    approved_at = now;
  }

  -- The adjustment, where an amount is given, and its identifier.
  abbrev pub adjust :
      (org_id associate_id actor now adjustment_id : ℕ)
      → Option D
      → Table (Adjustment D)
      → Table (Adjustment D) × Option ℕ
  adjust org_id associate_id actor now adjustment_id none t = (t, none)
  adjust org_id associate_id actor now adjustment_id (some amount) t = (
    insert adjustment_id (new_adjustment org_id associate_id actor now amount) t,
    some adjustment_id,
  )

  abbrev pub write_resolution :
      (dispute_id : ℕ)
      → CommissionDispute
      → LedgerEntry D
      → Resolution
      → (adjustment_id : ℕ) → Option D
      → (actor now : ℕ) → AuditContext
      → LedgerStore D
      → LedgerStore D
  write_resolution dispute_id dispute entry resolution adjustment_id amount actor now audit s =
      let (adjustments, made) =
        adjust audit.org_id entry.beneficiary_associate_id actor now adjustment_id amount
          s.adjustments in
      let restored =
        set_entry_status dispute.entry_id (restored_status dispute.entry_id s.releases) s in
      record restored {
        adjustments = adjustments;
        disputes = update dispute_id (settle_dispute resolution actor now made) s.disputes;
        audit_log = s.audit_log ++ ((audit, dispute_resolved dispute_id resolution made) ∷ []);
      }

  unfoldable pub resolve_dispute :
      LedgerCatalogue D
      → LedgerStore D
      → (dispute_id : ℕ) → Resolution
      → (adjustment_id : ℕ) → (adjustment_amount : Option D) → (now : ℕ) → AuditContext
      → Result LedgerError (LedgerStore D)
  resolve_dispute c s dispute_id resolution adjustment_id adjustment_amount now audit = do
    actor ← or_throw audit.actor_id actor_required
    dispute ← or_throw (s.disputes.row dispute_id) dispute_not_found
    throw_if (not (dispute.org_id == audit.org_id)) other_organisation
    throw_if (not (c.may_resolve actor)) not_permitted
    throw_if (not (is_pending dispute.status)) (dispute_already_resolved dispute.status)
    entry ← or_throw (s.entries.row dispute.entry_id) entry_not_found
    ok (
        write_resolution dispute_id dispute entry resolution adjustment_id adjustment_amount actor
          now audit s)
