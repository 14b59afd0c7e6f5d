-- ===== src/Payouts/Prepare/Overlap.antt =====
-- packages/services/src/payouts.ts: two batches whose periods overlap.
use desire_mlm_project.Base.{
  ℕ, ◌≡◌, refl, ap, ◌∙◌, Bool, true, ◌||◌, Option, none, some, List, [], ◌∷◌, ◌++◌, ◌==◌, arith,
  any, inl, inr, Bool-cases, map, ok, >>=-eq-ok, ok-injective, ==-refl,
}
use desire_mlm_project.Decimal.{Decimal, IsExact}
use desire_mlm_project.Table.{Table, select, select_from, keep_row}
use desire_mlm_project.Tax.{TaxSection, resolve_tds_section}
use desire_mlm_project.Payouts.Store.{CommissionEntry, PayoutLine, Store, Catalogue, TaxRate}
use desire_mlm_project.Payouts.Grouping.{Group, add_to_group, group_by_beneficiary, in_period}
use desire_mlm_project.Payouts.Prepare.{
  Progress, PrepareParams, prepare_batch, prepare_lines, prepare_line, pay_group, write_batch,
  groups_of, no_progress,
}
use desire_mlm_project.Payouts.Prepare.Balance.{prepare_batch-eq_ok, prepare_line-eq_ok}
use desire_mlm_project.Payouts.Approve.{is_in_batch, has_entry}

module _ {D : Type 0} where
  abbrev lists : ℕ → List (ℕ × CommissionEntry D) → Bool
  lists id = any (λ (e : ℕ × CommissionEntry D). e.0 == id)

  abbrev in_groups : ℕ → List (Group D) → Bool
  in_groups id = any (λ (g : Group D). lists id g.1)

  lists-append :
      (id : ℕ) (es : List (ℕ × CommissionEntry D)) (e : ℕ × CommissionEntry D)
      → lists id (es ++ (e ∷ [])) ≡ (lists id es || (e.0 == id))
  lists-append id [] e = ground arith
  lists-append id (f ∷ es) e = ground (arith, lists-append id es e)

  keep_row-lists :
      (id k : ℕ) (p : CommissionEntry D → Bool) (row : Option (CommissionEntry D))
      (rest : List (ℕ × CommissionEntry D))
      → lists id rest ≡ true
      → lists id (keep_row p k row rest) ≡ true
  keep_row-lists id k p none rest h = h
  keep_row-lists id k p (some e) rest h = ground arith

  select-lists :
      (id : ℕ) (p : CommissionEntry D → Bool) (row : ℕ → Option (CommissionEntry D)) (ids : List ℕ)
      {e : CommissionEntry D}
      → any (λ k. k == id) ids ≡ true
      → row id ≡ some e
      → p e ≡ true
      → lists id (select_from p row ids) ≡ true
  select-lists id p row [] at found chosen = cc
  select-lists id p row (k ∷ ids) {e} at found chosen = elim (Bool-cases (k == id)) [
    | inl this ↦
        let here : row k ≡ some e = ap row (ground arith) ∙ found in rw (here, chosen, this) refl
    | inr other ↦
        keep_row-lists id k p (row k) _ (select-lists id p row ids (ground arith) found chosen)
  ]

  in_groups-add :
      (id : ℕ) (e : ℕ × CommissionEntry D) (gs : List (Group D))
      → in_groups id (add_to_group e gs) ≡ (in_groups id gs || (e.0 == id))
  unfolding add_to_group
  in_groups-add id e [] = ground arith
  in_groups-add id e (g ∷ gs) = ground (arith, in_groups-add id e gs, lists-append id g.1 e)

  in_groups-group :
      (id : ℕ) (gs : List (Group D)) (es : List (ℕ × CommissionEntry D))
      → in_groups id (group_by_beneficiary gs es) ≡ (in_groups id gs || lists id es)
  unfolding group_by_beneficiary
  in_groups-group id gs [] = ground arith
  in_groups-group id gs (e ∷ es) =
      in_groups-group id (add_to_group e gs) es ∙ ground (arith, in_groups-add id e gs)

  has_entry-lists :
      (id : ℕ) (es : List (ℕ × CommissionEntry D))
      → has_entry id (map (λ (e : ℕ × CommissionEntry D). (e.0, e.1.gross_amount)) es) ≡ lists id es
  has_entry-lists id [] = refl
  has_entry-lists id (e ∷ es) = ground (arith, has_entry-lists id es)

  is_in_batch-append :
      (batch_id id : ℕ) (xs ys : List (PayoutLine D))
      → is_in_batch batch_id id (xs ++ ys)
        ≡ (is_in_batch batch_id id xs || is_in_batch batch_id id ys)
  unfolding is_in_batch
  is_in_batch-append batch_id id [] ys = refl
  is_in_batch-append batch_id id (x ∷ xs) ys = ground (arith, is_in_batch-append batch_id id xs ys)

module _ {D : Type 0} ⦃d : Decimal D⦄ ⦃x : IsExact D⦄ where
  pay_group-covers :
      (c : Catalogue D) (batch_id id : ℕ) (g : Group D) (section : TaxSection) (rate : TaxRate D)
      (p : Progress D)
      → is_in_batch batch_id id (pay_group c batch_id g section rate p).lines
        ≡ (is_in_batch batch_id id p.lines || lists id g.1)
  unfolding pay_group is_in_batch
  pay_group-covers c batch_id id g section rate p =
      is_in_batch-append batch_id id p.lines _
      ∙ ground (arith, has_entry-lists id g.1, ==-refl batch_id)

  prepare_lines-covers :
      (c : Catalogue D) (params : PrepareParams) (id : ℕ) (gs : List (Group D)) (p : Progress D)
      {p' : Progress D}
      → prepare_lines c params gs p ≡ ok p'
      → is_in_batch params.new_batch_id id p'.lines
        ≡ (is_in_batch params.new_batch_id id p.lines || in_groups id gs)
  unfolding prepare_lines
  prepare_lines-covers c params id [] p e = rw (← ok-injective e) (ground arith)
  prepare_lines-covers c params id (g ∷ gs) p e =
      let (mid, first, rest) =
        >>=-eq-ok (prepare_line c params g p) (prepare_lines c params gs) e in
      let (rate, same) = prepare_line-eq_ok c params g p first in
      prepare_lines-covers c params id gs mid rest
      ∙ ap (λ (q : Progress D). is_in_batch params.new_batch_id id q.lines || in_groups id gs) same
      ∙ ground (
        arith,
        pay_group-covers c params.new_batch_id id g
            (resolve_tds_section (c.beneficiary g.0).engagement_type) rate p,
      )

  -- A batch adds lines, and they pay every entry that was PAYABLE and accrued in the period.
  prepare_batch-covers :
      (c : Catalogue D) (s : Store D) (params : PrepareParams) (id : ℕ) {e : CommissionEntry D}
      {after : Store D}
      → prepare_batch c s params ≡ ok after
      → any (λ k. k == id) s.entries.ids ≡ true
      → s.entries.row id ≡ some e
      → in_period params.org_id params.period_start params.period_end e ≡ true
      → (added : List (PayoutLine D)) × (after.entries ≡ s.entries)
        × (after.lines ≡ s.lines ++ added)
        × (is_in_batch params.new_batch_id id added ≡ true)
  unfolding write_batch is_in_batch
  prepare_batch-covers c s params id prepared at found chosen =
      let (_, p, _, lines, same) = prepare_batch-eq_ok c s params prepared in
      (
        p.lines,
        ap (λ (t : Store D). t.entries) same,
        ap (λ (t : Store D). t.lines) same,
        prepare_lines-covers c params id (groups_of s params) (no_progress s) lines
            ∙ in_groups-group id []
                (select (in_period params.org_id params.period_start params.period_end) s.entries)
            ∙ select-lists id (in_period params.org_id params.period_start params.period_end)
                s.entries.row s.entries.ids at found chosen,
      )

  -- An entry that is PAYABLE and was accrued in the periods of two batches, which are prepared one after
  -- the other, is paid by a line of each of the two.
  pub prepare_batch_overlaps :
      (c : Catalogue D) (s : Store D) (first second : PrepareParams) (id : ℕ)
      {e : CommissionEntry D} {between after : Store D}
      → any (λ k. k == id) s.entries.ids ≡ true
      → s.entries.row id ≡ some e
      → in_period first.org_id first.period_start first.period_end e ≡ true
      → in_period second.org_id second.period_start second.period_end e ≡ true
      → prepare_batch c s first ≡ ok between
      → prepare_batch c between second ≡ ok after
      → (is_in_batch first.new_batch_id id after.lines ≡ true)
        × (is_in_batch second.new_batch_id id after.lines ≡ true)
  prepare_batch_overlaps c s first second id {e} {between} {after} at found in_first in_second h
        h' =
      let (added, same, lines, paid) = prepare_batch-covers c s first id h at found in_first in
      let (added', _, lines', paid') =
        prepare_batch-covers c between second id h'
          (ap (λ (t : Table (CommissionEntry D)). any (λ k. k == id) t.ids) same ∙ at)
          (ap (λ (t : Table (CommissionEntry D)). t.row id) same ∙ found) in_second in
      (
        ap (is_in_batch first.new_batch_id id) lines'
            ∙ is_in_batch-append first.new_batch_id id between.lines added'
            ∙ ground (
              arith,
              ap (is_in_batch first.new_batch_id id) lines
                  ∙ is_in_batch-append first.new_batch_id id s.lines added,
            ),
        ap (is_in_batch second.new_batch_id id) lines'
            ∙ is_in_batch-append second.new_batch_id id between.lines added'
            ∙ ground arith,
      )
