-- ===== src/Payouts/Grouping.antt =====
-- packages/services/src/payouts.ts: what `prepareBatch` selects: entries by period and beneficiary, the tax
-- rate in force, and the batch's number.
use desire_mlm_project.Base.{
  ℕ, zero, suc, ◌+◌, Bool, true, false, ◌&&◌, Option, none, some, List, [], ◌∷◌, ◌++◌, ltb, leb,
  ◌==◌, if◌then◌else◌, Result, or_throw,
}
use desire_mlm_project.Table.{Table, find_first}
use desire_mlm_project.Tax.{TaxSection, sec_192, sec_194j, sec_194h}
use desire_mlm_project.Payouts.Store.{
  EntryStatus, payable, RecoveryStatus, outstanding, partially_recovered, CommissionEntry,
  PayoutBatch, AuditContext, TaxRate, PayoutError, actor_required,
}

abbrev pub section_number : TaxSection → ℕ
section_number sec_192 = 0
section_number sec_194j = 1
section_number sec_194h = 2

abbrev pub is_payable : EntryStatus → Bool
is_payable payable = true
is_payable _ = false

-- `status: { in: ["OUTSTANDING", "PARTIALLY_RECOVERED"] }`
abbrev pub is_outstanding : RecoveryStatus → Bool
is_outstanding outstanding = true
is_outstanding partially_recovered = true
is_outstanding _ = false

-- `requireActor`
abbrev pub require_actor : AuditContext → Result PayoutError ℕ
require_actor audit = or_throw audit.actor_id actor_required

abbrev pub in_validity : ℕ → Option ℕ → Bool
in_validity as_of none = true
in_validity as_of (some valid_to) = ltb as_of valid_to

-- An associate with the entries to be paid, each with its identifier.
abbrev pub Group : Type 0 → Type 0
Group D = ℕ × List (ℕ × CommissionEntry D)

abbrev pub is_taken : {A : Type 0} → Option A → Bool
is_taken none = false
is_taken (some _) = true

module _ {D : Type 0} where
  -- Of two rates the one that began later; `orderBy: { validFrom: "desc" }` takes it.
  abbrev pub later_rate : TaxRate D → Option (TaxRate D) → TaxRate D
  later_rate rate none = rate
  later_rate rate (some other) = if ltb rate.valid_from other.valid_from then other else rate

  abbrev pub rate_applies : ℕ → TaxSection → ℕ → TaxRate D → Bool
  rate_applies org_id section as_of rate =
      rate.org_id == org_id
      && section_number rate.section == section_number section
      && leb rate.valid_from as_of
      && in_validity as_of rate.valid_to

  unfoldable pub find_tax_rate : ℕ → TaxSection → ℕ → List (TaxRate D) → Option (TaxRate D)
  find_tax_rate org_id section as_of [] = none
  find_tax_rate org_id section as_of (rate ∷ rates) =
      let rest = find_tax_rate org_id section as_of rates in
      if rate_applies org_id section as_of rate then some (later_rate rate rest) else rest

  -- `byBeneficiary`, a Map in the order of first insertion
  unfoldable pub add_to_group : ℕ × CommissionEntry D → List (Group D) → List (Group D)
  add_to_group e [] = (e.1.beneficiary_associate_id, e ∷ []) ∷ []
  add_to_group e (g ∷ gs) =
      if g.0 == e.1.beneficiary_associate_id
      then (g.0, g.1 ++ (e ∷ [])) ∷ gs
      else g ∷ add_to_group e gs

  unfoldable pub group_by_beneficiary :
      List (Group D) → List (ℕ × CommissionEntry D) → List (Group D)
  group_by_beneficiary gs [] = gs
  group_by_beneficiary gs (e ∷ es) = group_by_beneficiary (add_to_group e gs) es

  abbrev pub in_period : ℕ → ℕ → ℕ → CommissionEntry D → Bool
  in_period org_id start end e =
      e.org_id == org_id && is_payable e.status && leb start e.accrued_at && ltb e.accrued_at end

  abbrev pub has_period : ℕ → ℕ → ℕ → PayoutBatch D → Bool
  has_period org_id start end b =
      b.org_id == org_id && b.period_start == start && b.period_end == end

  abbrev pub has_number : ℕ → ℕ → PayoutBatch D → Bool
  has_number org_id number b = b.org_id == org_id && b.batch_number == number

  -- The attempts at `@@unique([orgId, batchNumber])`, from `number` on, with `left` to go.
  unfoldable pub allocate_number : Table (PayoutBatch D) → ℕ → (left number : ℕ) → Option ℕ
  allocate_number batches org_id zero number = none
  allocate_number batches org_id (suc left) number =
      let rest = allocate_number batches org_id left (number + 1) in
      if is_taken (find_first (has_number org_id number) batches) then rest else some number
