-- ===== src/Payouts/Approve.antt =====
-- packages/services/src/payouts.ts: the check for an open period, and `approveBatch`.
pub mod MakerChecker
use desire_mlm_project.Base.{
  ℕ, ◌+◌, Bool, true, false, not, ◌&&◌, Option, none, some, List, [], ◌∷◌, ◌++◌, ◌==◌, map, any,
  filter, length, if◌then◌else◌, Result, ok, err, ◌>>=◌, ◌>>◌, or_throw, throw_if,
}
use desire_mlm_project.Decimal.{Decimal}
use desire_mlm_project.Table.{Table, map_row, update, find_first}
use desire_mlm_project.Tax.{EngagementType, employee, consultant, channel_partner}
use desire_mlm_project.Payouts.Store.{
  BatchStatus, draft, pending_approval, approved, exported, paid_out, cancelled, EntryStatus, paid,
  RecoveryStatus, outstanding, partially_recovered, recovered, written_off, CommissionEntry,
  Recovery, PayoutBatch, PayoutLine, AuditContext, PayoutAudit, batch_approved, bank_account_viewed,
  batch_exported, recovery_written_off, Store, Catalogue, Permission, payout_approve, payout_export,
  recovery_write_off, PayoutError, not_permitted, other_organisation, batch_not_found,
  maker_checker_violation, recovery_not_found, not_approvable, not_exportable, already_resolved,
  period_open,
}
use desire_mlm_project.Payouts.Grouping.{require_actor}

abbrev pub is_draft : BatchStatus → Bool
is_draft draft = true
is_draft _ = false

abbrev pub is_approved : BatchStatus → Bool
is_approved approved = true
is_approved _ = false

abbrev pub is_exported : BatchStatus → Bool
is_exported exported = true
is_exported _ = false

-- `OPEN_PAYOUT_BATCH_STATUSES`
abbrev pub is_open : BatchStatus → Bool
is_open draft = true
is_open pending_approval = true
is_open approved = true
is_open _ = false

abbrev pub is_resolved : RecoveryStatus → Bool
is_resolved recovered = true
is_resolved written_off = true
is_resolved _ = false

abbrev pub is_employee : EngagementType → Bool
is_employee employee = true
is_employee _ = false

abbrev pub throw_open : {A : Type 0} → Option (ℕ × A) → Result PayoutError (Unit {0})
throw_open none = ok tt
throw_open (some (id, _)) = err (period_open id)

module _ {D : Type 0} where
  unfoldable pub assert_payout_period_not_open : Store D → ℕ → Result PayoutError (Unit {0})
  assert_payout_period_not_open s org_id =
      throw_open
        (find_first (λ (b : PayoutBatch D). b.org_id == org_id && is_open b.status) s.batches)

  -- The batch of the caller's organisation that the caller may act on.
  abbrev pub batch_for :
      Catalogue D → Store D → ℕ → AuditContext → Permission → ℕ → Result PayoutError (PayoutBatch D)
  batch_for c s batch_id audit permission actor = do
    batch ← or_throw (s.batches.row batch_id) batch_not_found
    throw_if (not (batch.org_id == audit.org_id)) other_organisation
    throw_if (not (c.permitted actor permission)) not_permitted
    ok batch

  abbrev pub has_entry : ℕ → List (ℕ × D) → Bool
  has_entry id [] = false
  has_entry id (e ∷ es) = if e.0 == id then true else has_entry id es

  -- Whether a line of the batch pays the entry.
  unfoldable pub is_in_batch : ℕ → ℕ → List (PayoutLine D) → Bool
  is_in_batch batch_id entry_id [] = false
  is_in_batch batch_id entry_id (line ∷ lines) =
      if line.batch_id == batch_id && has_entry entry_id line.line_entries
      then true
      else is_in_batch batch_id entry_id lines

  -- `updateMany({ where: { id: { in: lineEntryIds } } })`
  abbrev pub mark_paid : ℕ → ℕ → Store D → Table (CommissionEntry D)
  mark_paid batch_id now s = record (s.entries) {
    row = λ k.
        if is_in_batch batch_id k s.lines
        then map_row (λ (e : CommissionEntry D). record e { status = paid; paid_at = some now })
            (s.entries.row k)
        else s.entries.row k;
  }

  unfoldable pub approve_batch :
      Catalogue D → Store D → ℕ → AuditContext → ℕ → Result PayoutError (Store D)
  unfolding is_in_batch
  approve_batch c s batch_id audit now = do
    approved_by ← require_actor audit
    batch ← batch_for c s batch_id audit payout_approve approved_by
    throw_if (batch.prepared_by_id == approved_by) maker_checker_violation
    throw_if (not (is_draft batch.status)) (not_approvable batch.status)
    ok (record s {
      entries = mark_paid batch_id now s;
      batches =
          update batch_id
            (λ (b : PayoutBatch D). record b {
              status = approved;
              approved_by_id = some approved_by;
              approved_at = some now;
            })
            s.batches;
      audit_log = s.audit_log ++ ((audit, batch_approved batch_id approved_by) ∷ []);
    })
