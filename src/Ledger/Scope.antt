-- ===== src/Ledger/Scope.antt =====
-- packages/services/src/commission.ts: `assertAssociateInScope`, and the reads of one entry.
use desire_mlm_project.Base.{
  ℕ, Bool, true, false, not, List, ◌==◌, any, if◌then◌else◌, Result, ok, ◌>>=◌, ◌>>◌, or_throw,
  throw_if,
}
use desire_mlm_project.Payouts.Store.{AuditContext}
use desire_mlm_project.Access.{
  ScopeMode, own, own_and_downline, includes, get_accessible_associate_ids,
}
use desire_mlm_project.Ledger.Store.{
  RoleCode, super_admin, finance_admin, sales_head, auditor, team_lead, LedgerEntry, LedgerStore,
  LedgerCatalogue, LedgerError, actor_required, other_organisation, not_permitted,
  no_associate_profile, out_of_scope, entry_not_found,
}

-- `UNRESTRICTED_ROLE_CODES.has`
abbrev pub is_unrestricted : RoleCode → Bool
is_unrestricted super_admin = true
is_unrestricted finance_admin = true
is_unrestricted sales_head = true
is_unrestricted auditor = true
is_unrestricted _ = false

abbrev pub is_team_lead : RoleCode → Bool
is_team_lead team_lead = true
is_team_lead _ = false

abbrev pub mode_of : List RoleCode → ScopeMode
mode_of roles = if any is_team_lead roles then own_and_downline else own

module _ {D : Type 0} where
  unfoldable pub assert_associate_in_scope :
      LedgerCatalogue D → (actor associate_id : ℕ) → Result LedgerError (Unit {0})
  unfolding get_accessible_associate_ids
  assert_associate_in_scope c actor associate_id =
      let roles = c.role_codes actor in
      if any is_unrestricted roles
      then ok tt
      else (or_throw (c.associate_of_user actor) no_associate_profile >>= λ caller.
          throw_if
            (not (
              includes associate_id
                (get_accessible_associate_ids caller (mode_of roles) c.placements)))
            out_of_scope)

  -- `explainEntry`
  unfoldable pub explain_entry :
      LedgerCatalogue D
      → LedgerStore D
      → (entry_id : ℕ) → AuditContext
      → Result LedgerError (LedgerEntry D)
  unfolding assert_associate_in_scope
  explain_entry c s entry_id audit = do
    actor ← or_throw audit.actor_id actor_required
    entry ← or_throw (s.entries.row entry_id) entry_not_found
    throw_if (not (entry.org_id == audit.org_id)) other_organisation
    throw_if (not (c.may_read actor)) not_permitted
    assert_associate_in_scope c actor entry.beneficiary_associate_id
    ok entry
