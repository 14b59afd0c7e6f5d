-- ===== src/Payouts/Prepare.antt =====
-- packages/services/src/payouts.ts: `prepareBatch`.
pub mod Deduction
pub mod Balance
pub mod Overlap
use desire_mlm_project.Base.{
  ℕ, zero, suc, ◌+◌, Bool, true, false, not, ◌&&◌, ◌||◌, Option, none, some, List, [], ◌∷◌, ◌++◌,
  ltb, leb, ◌==◌, map, any, length, if◌then◌else◌, Result, ok, err, ◌>>=◌, ◌>>◌, or_throw, throw_if,
}
use desire_mlm_project.Decimal.{Decimal}
use desire_mlm_project.Table.{Table, update, insert, select, count, find_first}
use desire_mlm_project.Tax.{
  TaxSection, sec_192, sec_194j, sec_194h, TaxRateInput, resolve_tds_section,
  resolve_effective_tds_rate, compute_tds,
}
use desire_mlm_project.Payouts.Store.{
  BatchStatus, draft, EntryStatus, accrued, payable, on_hold, paid, reversed, RecoveryStatus,
  outstanding, partially_recovered, recovered, written_off, CommissionEntry, Recovery, PayoutBatch,
  PayoutLine, AuditContext, batch_created, Store, TaxRate, Beneficiary, payout_prepare, Catalogue,
  PayoutError, actor_required, not_permitted, duplicate_period, batch_number_conflict, no_tax_rate,
}
use desire_mlm_project.Payouts.Grouping.{
  Group, add_to_group, allocate_number, find_tax_rate, group_by_beneficiary, has_number, has_period,
  in_period, in_validity, is_outstanding, is_payable, is_taken, later_rate, rate_applies,
  require_actor, section_number,
}

-- What the loop over the beneficiaries has written so far, and its running totals.
pub record Progress (D : Type 0) : Type 0 where
  pub recoveries : Table (Recovery D)
  pub lines : List (PayoutLine D)
  pub total_gross : D
  pub total_tds : D
  pub total_recovery : D
  pub total_net_payable : D

pub record PrepareParams : Type 0 where
  pub org_id : ℕ
  pub period_start : ℕ
  pub period_end : ℕ
  pub audit : AuditContext
  pub as_of : ℕ
  -- the identifier that the database gives to the new batch
  pub new_batch_id : ℕ

module _ {D : Type 0} ⦃d : Decimal D⦄ where
  open d use {
    zero as nought, hundred, fifty, plus, minus, mul, div, min, to_decimal_places2,
    greater_than_or_equal_to, less_than_or_equal_to,
  }

  abbrev pub take_from : Recovery D → D → Recovery D
  take_from r applied =
      let new_outstanding = minus r.outstanding_amount applied in
      record r {
        recovered_amount = plus r.recovered_amount applied;
        outstanding_amount = new_outstanding;
        status =
            if less_than_or_equal_to new_outstanding nought then recovered else partially_recovered;
      }

  -- The loop over the outstanding recoveries: the rows that are updated, and `recoveryAdjustment`.
  unfoldable pub deduct : D → List (ℕ × Recovery D) → D → List (ℕ × Recovery D) × D
  deduct max_deduction [] adjustment = ([], adjustment)
  deduct max_deduction (r ∷ rs) adjustment =
      let applied = min (minus max_deduction adjustment) r.1.outstanding_amount in
      let skipped = deduct max_deduction rs adjustment in
      let (updated, total) = deduct max_deduction rs (plus adjustment applied) in
      if greater_than_or_equal_to adjustment max_deduction
      then ([], adjustment)
      else if less_than_or_equal_to applied nought
      then skipped
      else ((r.0, take_from r.1 applied) ∷ updated, total)

  abbrev pub write_back : List (ℕ × Recovery D) → Table (Recovery D) → Table (Recovery D)
  write_back [] t = t
  write_back (r ∷ rs) t = write_back rs (update r.0 (λ _. r.1) t)

  unfoldable pub sum_entries : D → List (ℕ × CommissionEntry D) → D
  sum_entries sum [] = sum
  sum_entries sum (e ∷ es) = sum_entries (plus sum e.1.gross_amount) es

  unfoldable pub max_deduction_of : D → D
  max_deduction_of gross = to_decimal_places2 (div (mul gross fifty) hundred)

  abbrev pub owes : ℕ → Recovery D → Bool
  owes associate_id r = r.associate_id == associate_id && is_outstanding r.status

  abbrev pub make_line :
      ℕ
      → ℕ
      → List (ℕ × CommissionEntry D)
      → TaxSection
      → (gross rate tds adjustment : D) → PayoutLine D
  make_line batch_id associate_id entries section gross rate tds adjustment = record {
    batch_id = batch_id;
    associate_id = associate_id;
    gross_amount = gross;
    tds_section = section;
    tds_rate_pct = rate;
    tds_amount = tds;
    recovery_adjustment = adjustment;
    net_payable = minus (minus gross tds) adjustment;
    line_entries = map (λ (e : ℕ × CommissionEntry D). (e.0, e.1.gross_amount)) entries;
  }

  -- The line is created and added to the totals.
  abbrev pub add_line : PayoutLine D → List (ℕ × Recovery D) → Progress D → Progress D
  add_line line updated p = record {
    recoveries = write_back updated p.recoveries;
    lines = p.lines ++ (line ∷ []);
    total_gross = plus p.total_gross line.gross_amount;
    total_tds = plus p.total_tds line.tds_amount;
    total_recovery = plus p.total_recovery line.recovery_adjustment;
    total_net_payable = plus p.total_net_payable line.net_payable;
  }

  -- The line for a beneficiary at a tax rate.
  unfoldable pub pay_group :
      Catalogue D → ℕ → Group D → TaxSection → TaxRate D → Progress D → Progress D
  unfolding resolve_effective_tds_rate compute_tds sum_entries max_deduction_of deduct
  pay_group c batch_id (associate_id, entries) section tax_rate p =
      let gross = sum_entries nought entries in
      let rate = resolve_effective_tds_rate tax_rate.rates (c.beneficiary associate_id).has_pan in
      let (updated, adjustment) =
        deduct (max_deduction_of gross) (select (owes associate_id) p.recoveries) nought in
      add_line
        (make_line batch_id associate_id entries section gross rate (compute_tds gross rate)
          adjustment)
        updated p

  -- One round of the loop over the beneficiaries.
  abbrev pub prepare_line :
      Catalogue D → PrepareParams → Group D → Progress D → Result PayoutError (Progress D)
  prepare_line c params g p = do
    let section = resolve_tds_section (c.beneficiary g.0).engagement_type
    tax_rate ←
        or_throw (find_tax_rate params.org_id section params.as_of c.tax_rates)
          (no_tax_rate section)
    ok (pay_group c params.new_batch_id g section tax_rate p)

  unfoldable pub prepare_lines :
      Catalogue D → PrepareParams → List (Group D) → Progress D → Result PayoutError (Progress D)
  prepare_lines c params [] p = ok p
  prepare_lines c params (g ∷ gs) p = prepare_line c params g p >>= prepare_lines c params gs

  abbrev pub new_batch : PrepareParams → ℕ → ℕ → PayoutBatch D
  new_batch params prepared_by number = record {
    org_id = params.org_id;
    batch_number = number;
    period_start = params.period_start;
    period_end = params.period_end;
    status = draft;
    prepared_by_id = prepared_by;
    approved_by_id = none;
    approved_at = none;
    exported_at = none;
    total_gross = nought;
    total_tds = nought;
    total_recovery = nought;
    total_net_payable = nought;
  }

  abbrev pub no_progress : Store D → Progress D
  no_progress s = record {
    recoveries = s.recoveries;
    lines = [];
    total_gross = nought;
    total_tds = nought;
    total_recovery = nought;
    total_net_payable = nought;
  }

  abbrev pub set_totals : Progress D → PayoutBatch D → PayoutBatch D
  set_totals p b = record b {
    total_gross = p.total_gross;
    total_tds = p.total_tds;
    total_recovery = p.total_recovery;
    total_net_payable = p.total_net_payable;
  }

  abbrev pub groups_of : Store D → PrepareParams → List (Group D)
  groups_of s params =
      group_by_beneficiary []
        (select (in_period params.org_id params.period_start params.period_end) s.entries)

  -- The store after the batch, its lines, its totals and the audit row have been written.
  unfoldable pub write_batch : Store D → PrepareParams → ℕ → ℕ → Progress D → Store D
  write_batch s params prepared_by number p = record s {
    recoveries = p.recoveries;
    batches =
        update params.new_batch_id (set_totals p)
          (insert params.new_batch_id (new_batch params prepared_by number) s.batches);
    lines = s.lines ++ p.lines;
    audit_log =
        s.audit_log
        ++ ((
          params.audit,
          batch_created params.new_batch_id number (length (groups_of s params))
              p.total_net_payable,
        )
            ∷ []);
  }

  -- What is checked before the beneficiaries are gone through: who prepares, and the batch's number.
  unfoldable pub prepare_guards : Catalogue D → Store D → PrepareParams → Result PayoutError (ℕ × ℕ)
  unfolding allocate_number
  prepare_guards c s params = do
    prepared_by ← require_actor params.audit
    throw_if (not (c.permitted prepared_by payout_prepare)) not_permitted
    throw_if
        (is_taken
          (find_first (has_period params.org_id params.period_start params.period_end) s.batches))
        duplicate_period
    number ←
        or_throw
          (allocate_number s.batches params.org_id 5
            (count (λ (b : PayoutBatch D). b.org_id == params.org_id) s.batches + 1))
          batch_number_conflict
    ok (prepared_by, number)

  unfoldable pub prepare_batch :
      Catalogue D → Store D → PrepareParams → Result PayoutError (Store D)
  unfolding prepare_guards group_by_beneficiary prepare_lines write_batch
  prepare_batch c s params = do
    (prepared_by, number) ← prepare_guards c s params
    p ← prepare_lines c params (groups_of s params) (no_progress s)
    ok (write_batch s params prepared_by number p)
