-- ===== src/Payouts/Export.antt =====
-- packages/services/src/payouts.ts: exporting a batch, and writing a recovery off. A file is the list of
-- the lines that it tells, not their text; the database's order by net payable is left out.
use desire_mlm_project.Base.{
  ℕ, Bool, not, some, List, [], ◌∷◌, ◌++◌, ◌==◌, filter, map, length, if◌then◌else◌, Result, ok,
  ◌>>=◌, ◌>>◌, or_throw, throw_if,
}
use desire_mlm_project.Decimal.{Decimal}
use desire_mlm_project.Table.{update}
use desire_mlm_project.Payouts.Store.{
  exported, written_off, Recovery, PayoutBatch, PayoutLine, AuditContext, PayoutAudit,
  bank_account_viewed, batch_exported, recovery_written_off, Store, Catalogue, payout_export,
  recovery_write_off, PayoutError, not_permitted, other_organisation, recovery_not_found,
  not_exportable, already_resolved,
}
use desire_mlm_project.Payouts.Grouping.{require_actor}
use desire_mlm_project.Payouts.Approve.{
  batch_for, is_approved, is_exported, is_resolved, is_employee,
}

pub record ExportCsvs (D : Type 0) : Type 0 where
  pub bank_file : List (PayoutLine D)
  pub payroll_handoff : List (PayoutLine D)
  -- the associates whose bank account number was decrypted, in order
  pub viewed : List ℕ

module _ {D : Type 0} where
  abbrev pub add_to_bank_file : Bool → PayoutLine D → ExportCsvs D → ExportCsvs D
  add_to_bank_file has_account line csvs = record csvs {
    bank_file = line ∷ csvs.bank_file;
    viewed = if has_account then line.associate_id ∷ csvs.viewed else csvs.viewed;
  }

  -- `buildExportCsvs`, the loop over the lines of the batch
  unfoldable pub build_export_csvs : Catalogue D → List (PayoutLine D) → ExportCsvs D
  build_export_csvs c [] = record { bank_file = []; payroll_handoff = []; viewed = [] }
  build_export_csvs c (line ∷ lines) =
      let rest = build_export_csvs c lines in
      let beneficiary = c.beneficiary line.associate_id in
      if is_employee beneficiary.engagement_type
      then record rest { payroll_handoff = line ∷ rest.payroll_handoff }
      else add_to_bank_file beneficiary.has_bank_account line rest

  abbrev pub lines_of : Store D → ℕ → List (PayoutLine D)
  lines_of s batch_id = filter (λ (l : PayoutLine D). l.batch_id == batch_id) s.lines

  abbrev pub log_views : AuditContext → ℕ → List ℕ → List (AuditContext × PayoutAudit D)
  log_views audit number = map λ associate_id. (audit, bank_account_viewed associate_id number)

  unfoldable pub export_batch :
      Catalogue D → Store D → ℕ → AuditContext → ℕ → Result PayoutError (Store D × ExportCsvs D)
  unfolding build_export_csvs
  export_batch c s batch_id audit now = do
    actor ← require_actor audit
    batch ← batch_for c s batch_id audit payout_export actor
    throw_if (not (is_approved batch.status)) (not_exportable batch.status)
    let csvs = build_export_csvs c (lines_of s batch_id)
    ok (
      record s {
        batches =
            update batch_id
              (λ (b : PayoutBatch D). record b { status = exported; exported_at = some now })
              s.batches;
        audit_log =
            (s.audit_log ++ log_views audit batch.batch_number csvs.viewed)
            ++ ((
              audit,
              batch_exported batch_id (length csvs.bank_file) (length csvs.payroll_handoff),
            )
                ∷ []);
      },
      csvs,
    )

  unfoldable pub get_batch_export_csvs :
      Catalogue D → Store D → ℕ → AuditContext → Result PayoutError (Store D × ExportCsvs D)
  unfolding build_export_csvs
  get_batch_export_csvs c s batch_id audit = do
    actor ← require_actor audit
    batch ← batch_for c s batch_id audit payout_export actor
    throw_if (not (is_exported batch.status)) (not_exportable batch.status)
    let csvs = build_export_csvs c (lines_of s batch_id)
    ok (
      record s { audit_log = s.audit_log ++ log_views audit batch.batch_number csvs.viewed },
      csvs,
    )

module _ {D : Type 0} ⦃d : Decimal D⦄ where
  unfoldable pub write_off_recovery :
      Catalogue D → Store D → ℕ → (reason : ℕ) → AuditContext → ℕ → Result PayoutError (Store D)
  write_off_recovery c s recovery_id reason audit now = do
    actor ← require_actor audit
    recovery ← or_throw (s.recoveries.row recovery_id) recovery_not_found
    throw_if (not (recovery.org_id == audit.org_id)) other_organisation
    throw_if (not (c.permitted actor recovery_write_off)) not_permitted
    throw_if (is_resolved recovery.status) (already_resolved recovery.status)
    ok (record s {
      recoveries =
          update recovery_id
            (λ (r : Recovery D). record r {
              status = written_off;
              outstanding_amount = d.zero;
              written_off_by_id = some actor;
              written_off_at = some now;
            })
            s.recoveries;
      audit_log =
          s.audit_log
          ++ ((
            audit,
            recovery_written_off recovery_id recovery.status recovery.outstanding_amount reason,
          )
              ∷ []);
    })
