-- ===== src/Ledger/Disputes/RoundTrip.antt =====
-- packages/services/src/commission.ts: what a dispute leaves of the entry that it was about.
use desire_mlm_project.Base.{
  ℕ, ◌≡◌, refl, sym, ap, ◌∙◌, ◌⊎◌, true, false, Option, some, ◌==◌, arith, inl, inr, Option-cases,
  any, ok, Result-cases, >>=-eq-ok, or_throw, leb, ltb, ==-refl,
}
use desire_mlm_project.Decimal.{Decimal}
use desire_mlm_project.Table.{Table, count, update}
use desire_mlm_project.Payouts.Store.{accrued, payable, on_hold, CommissionEntry, AuditContext}
use desire_mlm_project.Payouts.Grouping.{in_period}
use desire_mlm_project.Ledger.Store.{
  LedgerEntry, CommissionDispute, LedgerStore, LedgerCatalogue, Resolution, actor_required,
}
use desire_mlm_project.Ledger.Scope.{explain_entry, assert_associate_in_scope}
use desire_mlm_project.Ledger.Disputes.{
  is_open_for, is_pending, new_dispute, raise_dispute, resolve_dispute, set_entry_status,
  write_resolution, restored_status, is_live_release_of,
}

module _ {D : Type 0} where
  explain_entry-eq_ok :
      (c : LedgerCatalogue D) (s : LedgerStore D) (entry_id : ℕ) (audit : AuditContext)
      {entry : LedgerEntry D}
      → explain_entry c s entry_id audit ≡ ok entry
      → s.entries.row entry_id ≡ some entry
  unfolding explain_entry
  explain_entry-eq_ok c s entry_id audit {entry} h = elim (Option-cases audit.actor_id) [
    | inl missing ↦ absurd (ground arith)
    | inr (actor, is_actor) ↦ elim (Option-cases (s.entries.row entry_id)) [
      | inl missing ↦ absurd (ground arith)
      | inr (e, found) ↦
          elim (Result-cases (assert_associate_in_scope c actor e.beneficiary_associate_id)) [
            | inl (_, refused) ↦ absurd (ground arith)
            | inr (_, seen) ↦ ground arith
          ]
    ]
  ]

  raise_dispute-eq_ok :
      (c : LedgerCatalogue D) (s : LedgerStore D) (dispute_id entry_id description : ℕ)
      (audit : AuditContext) {after : LedgerStore D}
      → raise_dispute c s dispute_id entry_id description audit ≡ ok after
      → (actor : ℕ) × (entry : LedgerEntry D) × (s.entries.row entry_id ≡ some entry)
        × (count (is_open_for entry_id) s.disputes ≡ 0)
        × (after.entries ≡ (set_entry_status entry_id on_hold s).entries)
        × (after.releases ≡ s.releases)
        × (after.disputes.row dispute_id
            ≡ some (new_dispute audit.org_id entry_id actor description))
  unfolding raise_dispute
  raise_dispute-eq_ok c s dispute_id entry_id description audit h =
      let (actor, _, h1) = >>=-eq-ok (or_throw audit.actor_id actor_required) _ h in
      let (entry, explained, h2) = >>=-eq-ok (explain_entry c s entry_id audit) _ h1 in
      (
        actor,
        entry,
        explain_entry-eq_ok c s entry_id audit explained,
        ground arith,
        ground arith,
        ground arith,
        ground arith,
      )

module _ {D : Type 0} ⦃d : Decimal D⦄ where
  resolve_dispute-eq_ok :
      (c : LedgerCatalogue D) (s : LedgerStore D) (dispute_id : ℕ) (resolution : Resolution)
      (adjustment_id : ℕ) (amount : Option D) (now : ℕ) (audit : AuditContext)
      {after : LedgerStore D}
      → resolve_dispute c s dispute_id resolution adjustment_id amount now audit ≡ ok after
      → (dispute : CommissionDispute) × (s.disputes.row dispute_id ≡ some dispute)
        × (is_pending dispute.status ≡ true)
        × (after.entries
            ≡ (set_entry_status dispute.entry_id
                (restored_status dispute.entry_id s.releases)
                s).entries)
        × (after.releases ≡ s.releases)
  unfolding resolve_dispute
  resolve_dispute-eq_ok c s dispute_id resolution adjustment_id amount now audit {after} h =
      elim (Option-cases audit.actor_id) [
        | inl missing ↦ absurd (ground arith)
        | inr (actor, is_actor) ↦ elim (Option-cases (s.disputes.row dispute_id)) [
          | inl missing ↦ absurd (ground arith)
          | inr (dispute, found) ↦ elim (Option-cases (s.entries.row dispute.entry_id)) [
            | inl missing ↦ absurd (ground arith)
            | inr (entry, is_entry) ↦
                let written =
                  write_resolution dispute_id dispute entry resolution adjustment_id amount actor
                    now audit s in
                let same : after ≡ written = ground arith in
                (
                  dispute,
                  found,
                  ground arith,
                  ap (λ (t : LedgerStore D). t.entries) same,
                  ap (λ (t : LedgerStore D). t.releases) same,
                )
          ]
        ]
      ]

  -- Raising a dispute and resolving it, whatever its outcome and adjustment, sets the status of the
  -- disputed entry to PAYABLE if it has a release that is not reversed and to ACCRUED otherwise, and
  -- changes no other field of it, no other entry and no release.
  pub resolve_dispute_after_raise :
      (c : LedgerCatalogue D) (s held after : LedgerStore D) (entry : LedgerEntry D)
      (dispute_id entry_id description : ℕ) (raiser : AuditContext) (resolution : Resolution)
      (adjustment_id : ℕ) (amount : Option D) (now : ℕ) (resolver : AuditContext)
      → s.entries.row entry_id ≡ some entry
      → raise_dispute c s dispute_id entry_id description raiser ≡ ok held
      → resolve_dispute c held dispute_id resolution adjustment_id amount now resolver ≡ ok after
      → (after.entries.row entry_id
          ≡ some (record entry { status = restored_status entry_id s.releases }))
        × ((k : ℕ) → k == entry_id ≡ false → after.entries.row k ≡ s.entries.row k)
        × (after.releases ≡ s.releases)
  resolve_dispute_after_raise c s held after entry dispute_id entry_id description raiser resolution
        adjustment_id amount now resolver found raised resolved =
      let (actor, e, at_e, _, entries, releases, opened) =
        raise_dispute-eq_ok c s dispute_id entry_id description raiser raised in
      let (dispute, is_dispute, _, entries', releases') =
        resolve_dispute-eq_ok c held dispute_id resolution adjustment_id amount now resolver
          resolved in
      let about : dispute.entry_id ≡ entry_id = ground arith in
      let status = restored_status entry_id s.releases in
      let rows : (k : ℕ)
          → after.entries.row k
            ≡ (set_entry_status entry_id status (set_entry_status entry_id on_hold s)).entries.row
                k =
        λ k.
          ap (λ (t : Table (LedgerEntry D)). t.row k) entries'
          ∙ ap (λ id. (set_entry_status id (restored_status id held.releases) held).entries.row k)
              about
          ∙ ap (λ r. (set_entry_status entry_id (restored_status entry_id r) held).entries.row k)
              releases
          ∙ ap
              (λ (t : Table (LedgerEntry D)).
                (update entry_id (λ (e : LedgerEntry D). record e { status = status }) t).row k)
              entries in
      (
        rows entry_id ∙ rw (==-refl entry_id, found) refl,
        λ k other. rows k ∙ rw other refl,
        releases' ∙ releases,
      )

  -- The status that a release which is not reversed, or the lack of one, leaves an entry in.
  abbrev pub IsStanding : ℕ → LedgerEntry D → LedgerStore D → Type 0
  IsStanding entry_id entry s =
      (entry.status ≡ payable) × (any (is_live_release_of entry_id) s.releases ≡ true)
      ⊎ (entry.status ≡ accrued) × (any (is_live_release_of entry_id) s.releases ≡ false)

  restored_status-standing :
      (entry_id : ℕ) (entry : LedgerEntry D) (s : LedgerStore D)
      → IsStanding entry_id entry s
      → restored_status entry_id s.releases ≡ entry.status
  restored_status-standing entry_id entry s (inl (is_payable, released)) =
      rw released (sym is_payable)
  restored_status-standing entry_id entry s (inr (is_accrued, unreleased)) =
      rw unreleased (sym is_accrued)

  -- An entry that is PAYABLE with a release that is not reversed, or ACCRUED without one, is after a
  -- dispute was raised and resolved exactly what it was before, whatever the outcome.
  pub dispute_round_trip :
      (c : LedgerCatalogue D) (s held after : LedgerStore D) (entry : LedgerEntry D)
      (dispute_id entry_id description : ℕ) (raiser : AuditContext) (resolution : Resolution)
      (adjustment_id : ℕ) (amount : Option D) (now : ℕ) (resolver : AuditContext)
      → s.entries.row entry_id ≡ some entry
      → IsStanding entry_id entry s
      → raise_dispute c s dispute_id entry_id description raiser ≡ ok held
      → resolve_dispute c held dispute_id resolution adjustment_id amount now resolver ≡ ok after
      → after.entries.row entry_id ≡ some entry
  dispute_round_trip c s held after entry dispute_id entry_id description raiser resolution
        adjustment_id amount now resolver found standing raised resolved =
      (resolve_dispute_after_raise c s held after entry dispute_id entry_id description raiser
        resolution adjustment_id amount now resolver found raised resolved).0
      ∙ ap (λ status. some (record entry { status = status }))
          (restored_status-standing entry_id entry s standing)

  -- The entry, as the payouts' code reads it.
  abbrev pub payout_view : LedgerEntry D → CommissionEntry D
  payout_view e = record {
    org_id = e.org_id;
    beneficiary_associate_id = e.beneficiary_associate_id;
    status = e.status;
    gross_amount = e.gross_amount;
    accrued_at = e.accrued_at;
    paid_at = e.paid_at;
  }

  -- An entry with a release that is not reversed, PAID ones included, is after a dispute was raised and
  -- resolved among those that `prepareBatch` pays for every period that holds its accrual.
  pub dispute_reopens_paid :
      (c : LedgerCatalogue D) (s held after : LedgerStore D) (entry : LedgerEntry D)
      (dispute_id entry_id description : ℕ) (raiser : AuditContext) (resolution : Resolution)
      (adjustment_id : ℕ) (amount : Option D) (now : ℕ) (resolver : AuditContext)
      (period_start period_end : ℕ)
      → s.entries.row entry_id ≡ some entry
      → any (is_live_release_of entry_id) s.releases ≡ true
      → raise_dispute c s dispute_id entry_id description raiser ≡ ok held
      → resolve_dispute c held dispute_id resolution adjustment_id amount now resolver ≡ ok after
      → leb period_start entry.accrued_at ≡ true
      → ltb entry.accrued_at period_end ≡ true
      → (reopened : LedgerEntry D) × (after.entries.row entry_id ≡ some reopened)
        × (in_period entry.org_id period_start period_end (payout_view reopened) ≡ true)
  dispute_reopens_paid c s held after entry dispute_id entry_id description raiser resolution
        adjustment_id amount now resolver period_start period_end found released raised resolved
        from until =
      let (row, _, _) =
        resolve_dispute_after_raise c s held after entry dispute_id entry_id description raiser
          resolution adjustment_id amount now resolver found raised resolved in
      (
        record entry { status = restored_status entry_id s.releases },
        row,
        rw (released, ==-refl entry.org_id, from, until) refl,
      )
