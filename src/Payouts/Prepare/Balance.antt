-- ===== src/Payouts/Prepare/Balance.antt =====
-- packages/services/src/payouts.ts: every line and every batch balances.
use mathlib.Core.Path.{ap₂}
use desire_mlm_project.Base.{
  ℕ, ◌≡◌, refl, inl, inr, some, List, [], ◌∷◌, ◌++◌, arith, All, All-append, Bool-cases,
  Option-cases, ap, sym, ◌∙◌, ok, ◌>>=◌, >>=-eq-ok, ok-injective, ◌==◌,
}
use desire_mlm_project.Decimal.{Decimal, IsExact}
use desire_mlm_project.Decimal.Laws.{
  minus_twice, interchange, insert_term, plus_comm, plus_assoc, plus_zero, plus_right_comm,
}
use desire_mlm_project.Table.{select}
use desire_mlm_project.Tax.{
  TaxSection, resolve_tds_section, resolve_effective_tds_rate, compute_tds,
}
use desire_mlm_project.Payouts.Store.{
  CommissionEntry, PayoutBatch, PayoutLine, Recovery, Store, Catalogue, TaxRate,
}
use desire_mlm_project.Payouts.Grouping.{
  Group, add_to_group, group_by_beneficiary, find_tax_rate, in_period,
}
use desire_mlm_project.Payouts.Prepare.{
  Progress, PrepareParams, sum_entries, pay_group, prepare_lines, prepare_line, prepare_batch,
  prepare_guards, groups_of, no_progress, add_line, make_line, write_batch, set_totals, new_batch,
  deduct, max_deduction_of, owes,
}

module _ {D : Type 0} ⦃d : Decimal D⦄ where
  open d use {zero as nought, plus, minus}

  -- The gross amount is the net amount, the tax and the recovery together.
  abbrev pub LineBalances : PayoutLine D → Type 0
  LineBalances line =
      line.gross_amount ≡ plus (plus line.net_payable line.tds_amount) line.recovery_adjustment

  abbrev pub ProgressBalances : Progress D → Type 0
  ProgressBalances p = p.total_gross ≡ plus (plus p.total_net_payable p.total_tds) p.total_recovery

  -- The gross amounts of the entries of all groups.
  sum_groups : List (Group D) → D
  sum_groups [] = nought
  sum_groups (g ∷ gs) = plus (sum_entries nought g.1) (sum_groups gs)

  module _ ⦃x : IsExact D⦄ where
    open x use {eq_of_value, plus_value, minus_value, zero_value}

    add_line-balances :
        (line : PayoutLine D) (updated : List (ℕ × Recovery D)) (p : Progress D)
        → LineBalances line
        → ProgressBalances p
        → ProgressBalances (add_line line updated p)
    add_line-balances line updated p l b =
        ap₂ plus b l
        ∙ interchange p.total_net_payable p.total_tds p.total_recovery line.net_payable
            line.tds_amount line.recovery_adjustment

    -- Adding up from a running sum.
    sum_entries-from :
        (sum : D) (es : List (ℕ × CommissionEntry D))
        → sum_entries sum es ≡ plus sum (sum_entries nought es)
    unfolding sum_entries
    sum_entries-from sum [] = sym (plus_zero sum)
    sum_entries-from sum (e ∷ es) =
        sum_entries-from (plus sum e.1.gross_amount) es
        ∙ insert_term sum e.1.gross_amount (sum_entries nought es)
        ∙ ap (plus sum) (sym (sum_entries-from (plus nought e.1.gross_amount) es))

    sum_entries-append :
        (sum : D) (es : List (ℕ × CommissionEntry D)) (e : ℕ × CommissionEntry D)
        → sum_entries sum (es ++ (e ∷ [])) ≡ plus (sum_entries sum es) e.1.gross_amount
    unfolding sum_entries
    sum_entries-append sum [] e = refl
    sum_entries-append sum (f ∷ es) e = sum_entries-append (plus sum f.1.gross_amount) es e

    sum_groups-add :
        (e : ℕ × CommissionEntry D) (gs : List (Group D))
        → sum_groups (add_to_group e gs) ≡ plus (sum_groups gs) e.1.gross_amount
    unfolding sum_groups add_to_group sum_entries
    sum_groups-add e [] = plus_zero _
    sum_groups-add e (g ∷ gs) = elim (Bool-cases (g.0 == e.1.beneficiary_associate_id)) [
      | inl same ↦ rw same (
          ap (λ s. plus s (sum_groups gs)) (sum_entries-append nought g.1 e)
          ∙ plus_right_comm _ _ _)
      | inr other ↦
          rw other
            (ap (plus (sum_entries nought g.1)) (sum_groups-add e gs) ∙ sym (plus_assoc _ _ _))
    ]

    sum_groups-group :
        (gs : List (Group D)) (es : List (ℕ × CommissionEntry D))
        → sum_groups (group_by_beneficiary gs es) ≡ sum_entries (sum_groups gs) es
    unfolding group_by_beneficiary sum_entries
    sum_groups-group gs [] = refl
    sum_groups-group gs (e ∷ es) =
        sum_groups-group (add_to_group e gs) es ∙ ap (λ s. sum_entries s es) (sum_groups-add e gs)

    pay_group-balances :
        (c : Catalogue D) (batch_id : ℕ) (g : Group D) (section : TaxSection) (rate : TaxRate D)
        (p : Progress D)
        → All LineBalances p.lines
        → ProgressBalances p
        → let p' = pay_group c batch_id g section rate p in
          All LineBalances p'.lines
          × ProgressBalances p'
          × (p'.total_gross ≡ plus p.total_gross (sum_entries nought g.1))
    unfolding pay_group
    pay_group-balances c batch_id g section rate p ls b =
        let gross = sum_entries nought g.1 in
        let pct = resolve_effective_tds_rate rate.rates (c.beneficiary g.0).has_pan in
        let tds = compute_tds gross pct in
        let (updated, adjustment) =
          deduct (max_deduction_of gross) (select (owes g.0) p.recoveries) nought in
        let line = make_line batch_id g.0 g.1 section gross pct tds adjustment in
        (
          All-append LineBalances p.lines (line ∷ []) ls (minus_twice gross tds adjustment, tt),
          add_line-balances line updated p (minus_twice gross tds adjustment) b,
          refl,
        )

    pub prepare_line-eq_ok :
        (c : Catalogue D) (params : PrepareParams) (g : Group D) (p : Progress D) {p' : Progress D}
        → prepare_line c params g p ≡ ok p'
        → (rate : TaxRate D) × (p'
            ≡ pay_group c params.new_batch_id g
                (resolve_tds_section (c.beneficiary g.0).engagement_type)
                rate
                p)
    prepare_line-eq_ok c params g p {p'} e =
        let section = resolve_tds_section (c.beneficiary g.0).engagement_type in
        elim (Option-cases (find_tax_rate params.org_id section params.as_of c.tax_rates)) [
          | inl missing ↦ absurd (ground arith)
          | inr (rate, found) ↦ (rate, ground arith)
        ]

    prepare_lines-balances :
        (c : Catalogue D) (params : PrepareParams) (gs : List (Group D)) (p : Progress D)
        {p' : Progress D}
        → prepare_lines c params gs p ≡ ok p'
        → All LineBalances p.lines
        → ProgressBalances p
        → All LineBalances p'.lines
          × ProgressBalances p'
          × (p'.total_gross ≡ plus p.total_gross (sum_groups gs))
    unfolding prepare_lines sum_groups
    prepare_lines-balances c params [] p e ls b = rw (← ok-injective e) (ls, b, sym (plus_zero _))
    prepare_lines-balances c params (g ∷ gs) p e ls b =
        let (mid, first, rest) =
          >>=-eq-ok (prepare_line c params g p) (prepare_lines c params gs) e in
        let (rate, same) = prepare_line-eq_ok c params g p first in
        let (ls', b', grown) =
          pay_group-balances c params.new_batch_id g
            (resolve_tds_section (c.beneficiary g.0).engagement_type) rate p ls b in
        let (ls'', b'', total) =
          prepare_lines-balances c params gs mid rest (rw same ls') (rw same b') in
        (
          ls'',
          b'',
          total
              ∙ ap (λ (q : Progress D). plus q.total_gross (sum_groups gs)) same
              ∙ ap (λ t. plus t (sum_groups gs)) grown
              ∙ plus_assoc _ _ _,
        )

    no_progress-balances : (s : Store D) → ProgressBalances (no_progress s)
    no_progress-balances s = eq_of_value _ _ (
        omega (arith, zero_value, plus_value nought nought, plus_value (plus nought nought) nought))

    -- What a batch that has been prepared went through.
    pub prepare_batch-eq_ok :
        (c : Catalogue D) (s : Store D) (params : PrepareParams) {after : Store D}
        → prepare_batch c s params ≡ ok after
        → (guards : ℕ × ℕ) × (p : Progress D) × (prepare_guards c s params ≡ ok guards)
          × (prepare_lines c params (groups_of s params) (no_progress s) ≡ ok p)
          × (after ≡ write_batch s params guards.0 guards.1 p)
    unfolding prepare_batch
    prepare_batch-eq_ok c s params e =
        let (guards, checked, rest) =
          >>=-eq-ok (prepare_guards c s params)
            (λ (guards : ℕ × ℕ).
              prepare_lines c params (groups_of s params) (no_progress s) >>= λ p.
              ok (write_batch s params guards.0 guards.1 p))
            e in
        let (p, prepared, last) =
          >>=-eq-ok (prepare_lines c params (groups_of s params) (no_progress s))
            (λ p. ok (write_batch s params guards.0 guards.1 p)) rest in
        (guards, p, checked, prepared, sym (ok-injective last))

    -- A prepared batch balances: each of the lines that were added pays out its gross amount as net
    -- amount, tax and recovery; so do the batch's totals; and its total gross is the sum of all entries
    -- of the organisation that were PAYABLE and accrued in the period.
    pub prepare_batch-balances :
        (c : Catalogue D) (s : Store D) (params : PrepareParams) {after : Store D}
        → prepare_batch c s params ≡ ok after
        → (added : List (PayoutLine D)) × (b : PayoutBatch D) × (after.lines ≡ s.lines ++ added)
          × All LineBalances added
          × (after.batches.row params.new_batch_id ≡ some b)
          × (b.total_gross ≡ plus (plus b.total_net_payable b.total_tds) b.total_recovery)
          × (b.total_gross
              ≡ sum_entries nought (
                  select (in_period params.org_id params.period_start params.period_end) s.entries))
    unfolding write_batch sum_groups
    prepare_batch-balances c s params e =
        let ((by, number), p, _, prepared, same) = prepare_batch-eq_ok c s params e in
        let (ls, b, total) =
          prepare_lines-balances c params (groups_of s params) (no_progress s) prepared tt
            (no_progress-balances s) in
        (
          p.lines,
          set_totals p (new_batch params by number),
          ap (λ (t : Store D). t.lines) same,
          ls,
          rw same (ground arith),
          b,
          total ∙ plus_comm _ _ ∙ plus_zero _ ∙ sum_groups-group [] _,
        )
