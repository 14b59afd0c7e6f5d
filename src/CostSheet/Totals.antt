-- ===== src/CostSheet/Totals.antt =====
-- packages/services/src/cost-sheet.ts: sums over the lines do not depend on their order.
use desire_mlm_project.Base.{
  ℕ, ◌≡◌, refl, sym, ap, ◌∙◌, List, [], ◌∷◌, ◌++◌, inl, inr, Bool-cases, leb, insert_by, sort_by,
  if◌then◌else◌,
}
use desire_mlm_project.Decimal.{Decimal, IsExact}
use desire_mlm_project.Decimal.Laws.{plus_comm, plus_assoc, plus_zero}
use desire_mlm_project.CostSheet.Types.{CostSheetLine}
use desire_mlm_project.CostSheet.Compute.{sum_commissionable}

module _ {D : Type 0} ⦃d : Decimal D⦄ where
  open d use {zero as nought, plus}

  abbrev pub amount_of : CostSheetLine D → D
  amount_of line = line.amount

  abbrev pub commissionable_of : CostSheetLine D → D
  commissionable_of line = if line.counts_toward_commission then line.amount else nought

  abbrev pub total_of : (CostSheetLine D → D) → List (CostSheetLine D) → D
  total_of value [] = nought
  total_of value (line ∷ lines) = plus (value line) (total_of value lines)

  -- The amounts of the lines, added up.
  abbrev pub total_amount : List (CostSheetLine D) → D
  total_amount = total_of amount_of

  module _ ⦃x : IsExact D⦄ (value : CostSheetLine D → D) where
    pub total_of-append :
        (lines : List (CostSheetLine D)) (line : CostSheetLine D)
        → total_of value (lines ++ (line ∷ [])) ≡ plus (total_of value lines) (value line)
    total_of-append [] line = plus_comm (value line) nought
    total_of-append (l ∷ lines) line =
        ap (plus (value l)) (total_of-append lines line) ∙ sym (plus_assoc _ _ _)

    total_of-insert_by :
        (key : CostSheetLine D → ℕ) (line : CostSheetLine D) (lines : List (CostSheetLine D))
        → total_of value (insert_by key line lines) ≡ plus (value line) (total_of value lines)
    total_of-insert_by key line [] = refl
    total_of-insert_by key line (l ∷ lines) = elim (Bool-cases (leb (key line) (key l))) [
      | inl here ↦ rw here refl
      | inr later ↦ rw later (
          ap (plus (value l)) (total_of-insert_by key line lines)
          ∙ sym (plus_assoc _ _ _)
          ∙ ap (λ t. plus t (total_of value lines)) (plus_comm _ _)
          ∙ plus_assoc _ _ _)
    ]

    -- The order of the lines does not matter.
    pub total_of-sort_by :
        (key : CostSheetLine D → ℕ) (lines : List (CostSheetLine D))
        → total_of value (sort_by key lines) ≡ total_of value lines
    total_of-sort_by key [] = refl
    total_of-sort_by key (l ∷ lines) =
        total_of-insert_by key l (sort_by key lines)
        ∙ ap (plus (value l)) (total_of-sort_by key lines)

  pub sum_commissionable_lem :
      ⦃x : IsExact D⦄ (sum : D) (lines : List (CostSheetLine D))
      → sum_commissionable sum lines ≡ plus sum (total_of commissionable_of lines)
  unfolding sum_commissionable
  sum_commissionable_lem sum [] = sym (plus_zero sum)
  sum_commissionable_lem sum (line ∷ lines) = elim (Bool-cases line.counts_toward_commission) [
    | inl counts ↦
        rw counts (sum_commissionable_lem (plus sum line.amount) lines ∙ plus_assoc _ _ _)
    | inr other ↦
        rw other
          (sum_commissionable_lem sum lines ∙ ap (plus sum) (sym (plus_zero _) ∙ plus_comm _ _))
  ]
