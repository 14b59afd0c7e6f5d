-- ===== src/Payouts/Tests.antt =====
-- One payout: entry 11 of associate 8, a channel partner with an advance to pay back.
use desire_mlm_project.Base.{
  ℕ, ◌≡◌, ◌≢◌, refl, true, false, none, some, List, [], ◌∷◌, ◌++◌, arith, ok, err, Result, ◌==◌,
  All,
}
use desire_mlm_project.Decimal.{◌≼◌}
use desire_mlm_project.Paise.{ℤ, pos, paise_decimal, paise_exact}
use desire_mlm_project.Table.{Table, select}
use desire_mlm_project.Tax.{channel_partner, sec_194h, resolve_tds_section}
use desire_mlm_project.Payouts.Store.{
  draft, payable, paid, outstanding, CommissionEntry, Recovery, PayoutBatch, PayoutLine,
  AuditContext, Store, Catalogue, PayoutError, payout_approve,
}
use desire_mlm_project.Payouts.Grouping.{
  allocate_number, group_by_beneficiary, add_to_group, find_tax_rate, in_period,
}
use desire_mlm_project.Payouts.Prepare.{
  PrepareParams, prepare_batch, prepare_guards, prepare_lines, pay_group, sum_entries, deduct,
  write_batch,
}
use desire_mlm_project.Payouts.Prepare.Balance.{LineBalances, prepare_batch-balances}
use desire_mlm_project.Payouts.Prepare.Overlap.{prepare_batch_overlaps}
use desire_mlm_project.Payouts.Prepare.Deduction.{IsNotOverdrawn, deduct_lem}
use desire_mlm_project.Payouts.Approve.{approve_batch, is_in_batch}
use desire_mlm_project.Payouts.Approve.MakerChecker.{
  approval, approve_batch_lem, approve_batch_once,
}

abbrev advance : Recovery ℤ
advance = record {
  org_id = 1;
  associate_id = 8;
  recovered_amount = pos 0;
  outstanding_amount = pos 70_000;
  status = outstanding;
  written_off_by_id = none;
  written_off_at = none;
}

abbrev entry : CommissionEntry ℤ
entry = record {
  org_id = 1;
  beneficiary_associate_id = 8;
  status = payable;
  gross_amount = pos 100_000;
  accrued_at = 15;
  paid_at = none;
}

abbrev single : {A : Type 0} → ℕ → A → Table A
single id a = record { ids = id ∷ []; row = λ k. elim (k == id) [ true ↦ some a | false ↦ none ] }

abbrev start : Store ℤ
start = record {
  entries = single 11 entry;
  recoveries = single 21 advance;
  batches = record { ids = []; row = λ k. none };
  lines = [];
  audit_log = [];
}

abbrev catalogue : Catalogue ℤ
catalogue = record {
  tax_rates =
      record {
        org_id = 1;
        section = sec_194h;
        valid_from = 0;
        valid_to = none;
        rates = record { rate_pct = pos 200; no_pan_rate_pct = none };
      }
      ∷ [];
  beneficiary =
      λ id. record { engagement_type = channel_partner; has_pan = true; has_bank_account = true };
  permitted = λ actor permission. true;
}

abbrev by_user : ℕ → AuditContext
by_user id = record { org_id = 1; actor_id = some id }

abbrev params : PrepareParams
params = record {
  org_id = 1;
  period_start = 10;
  period_end = 20;
  audit = by_user 3;
  as_of = 20;
  new_batch_id = 31;
}

abbrev after_of : {E : Type 0} → Result E (Store ℤ) → Store ℤ
after_of (ok s) = s
after_of (err e) = start

abbrev prepared : Store ℤ
prepared = after_of (prepare_batch catalogue start params)

prepare_batch-start : prepare_batch catalogue start params ≡ ok prepared
unfolding prepare_batch prepare_guards allocate_number group_by_beneficiary add_to_group
    prepare_lines pay_group find_tax_rate write_batch resolve_tds_section
prepare_batch-start = refl

prepare_batch-balances_example :
    (added : List (PayoutLine ℤ)) × (b : PayoutBatch ℤ) × (prepared.lines ≡ [] ++ added)
    × All LineBalances added
    × (prepared.batches.row 31 ≡ some b)
    × (b.total_gross
        ≡ paise_decimal.plus (paise_decimal.plus b.total_net_payable b.total_tds) b.total_recovery)
    × (b.total_gross ≡ sum_entries paise_decimal.zero (select (in_period 1 10 20) start.entries))
prepare_batch-balances_example = prepare_batch-balances catalogue start params prepare_batch-start

deduct_lem_example :
    (paise_decimal.zero ≼ (deduct (pos 50_000) ((21, advance) ∷ []) paise_decimal.zero).1)
    × ((deduct (pos 50_000) ((21, advance) ∷ []) paise_decimal.zero).1 ≼ pos 50_000)
    × All IsNotOverdrawn (deduct (pos 50_000) ((21, advance) ∷ []) paise_decimal.zero).0
deduct_lem_example = deduct_lem (pos 50_000) ((21, advance) ∷ []) (omega arith)

abbrev approved_store : Store ℤ
approved_store = after_of (approve_batch catalogue prepared 31 (by_user 4) 25)

approve_batch-prepared : approve_batch catalogue prepared 31 (by_user 4) 25 ≡ ok approved_store
unfolding approve_batch is_in_batch prepare_batch prepare_guards allocate_number
    group_by_beneficiary add_to_group prepare_lines pay_group find_tax_rate write_batch
    resolve_tds_section
approve_batch-prepared = refl

approve_batch_lem_example :
    (by : ℕ) × (b : PayoutBatch ℤ) × (some 4 ≡ some by)
    × (catalogue.permitted 4 payout_approve ≡ true)
    × (prepared.batches.row 31 ≡ some b)
    × (b.status ≡ draft)
    × (b.prepared_by_id ≢ by)
    × (approved_store.batches.row 31 ≡ some (approval by 25 b))
    × ((k : ℕ) → k ≢ 31 → approved_store.batches.row k ≡ prepared.batches.row k)
    × ((k : ℕ) (e : CommissionEntry ℤ)
        → is_in_batch 31 k prepared.lines ≡ true
        → prepared.entries.row k ≡ some e
        → approved_store.entries.row k ≡ some (record e { status = paid; paid_at = some 25 }))
    × ((k : ℕ)
        → is_in_batch 31 k prepared.lines ≡ false
        → approved_store.entries.row k ≡ prepared.entries.row k)
approve_batch_lem_example =
    approve_batch_lem catalogue prepared 31 (by_user 4) 25 approve_batch-prepared

approve_batch_once_example :
    (e : PayoutError) × (approve_batch catalogue approved_store 31 (by_user 5) 26 ≡ err e)
approve_batch_once_example =
    approve_batch_once catalogue prepared 31 (by_user 4) 25 (by_user 5) 26 approve_batch-prepared

abbrev within : PrepareParams
within = record params { period_start = 12; period_end = 18; new_batch_id = 32 }

abbrev prepared_again : Store ℤ
prepared_again = after_of (prepare_batch catalogue prepared within)

prepare_batch-prepared : prepare_batch catalogue prepared within ≡ ok prepared_again
unfolding prepare_batch prepare_guards allocate_number group_by_beneficiary add_to_group
    prepare_lines pay_group find_tax_rate write_batch resolve_tds_section
prepare_batch-prepared = refl

-- Entry 11, accrued at 15, is in the batch for 10 to 20 and in the one for 12 to 18.
prepare_batch_overlaps_example :
    (is_in_batch 31 11 prepared_again.lines ≡ true)
    × (is_in_batch 32 11 prepared_again.lines ≡ true)
prepare_batch_overlaps_example =
    prepare_batch_overlaps catalogue start params within 11 refl refl refl refl prepare_batch-start
      prepare_batch-prepared
