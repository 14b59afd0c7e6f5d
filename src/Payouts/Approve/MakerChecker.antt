-- ===== src/Payouts/Approve/MakerChecker.antt =====
-- packages/services/src/payouts.ts: who may approve a batch, and what an approval does.
use desire_mlm_project.Base.{
  ℕ, ◌≡◌, ◌≢◌, refl, true, false, some, arith, inl, inr, Option-cases, ok, err, Result-cases, ap,
}
use desire_mlm_project.Table.{Table, update}
use desire_mlm_project.Payouts.Store.{
  BatchStatus, draft, pending_approval, approved, exported, paid_out, cancelled, paid,
  CommissionEntry, PayoutBatch, AuditContext, Store, Catalogue, PayoutError, payout_approve,
}
use desire_mlm_project.Payouts.Approve.{approve_batch, is_draft, is_in_batch, mark_paid}

draft_of : (status : BatchStatus) → is_draft status ≡ true → status ≡ draft
draft_of draft h = refl
draft_of pending_approval h = cc
draft_of approved h = cc
draft_of exported h = cc
draft_of paid_out h = cc
draft_of cancelled h = cc

module _ {D : Type 0} where
  abbrev pub approval : ℕ → ℕ → PayoutBatch D → PayoutBatch D
  approval by now b = record b {
    status = approved;
    approved_by_id = some by;
    approved_at = some now;
  }

  pub approve_batch-eq_ok :
      (c : Catalogue D) (s : Store D) (batch_id : ℕ) (audit : AuditContext) (now : ℕ)
      {after : Store D}
      → approve_batch c s batch_id audit now ≡ ok after
      → (by : ℕ) × (b : PayoutBatch D) × (audit.actor_id ≡ some by)
        × (s.batches.row batch_id ≡ some b)
        × (is_draft b.status ≡ true)
        × (b.prepared_by_id ≢ by)
        × (c.permitted by payout_approve ≡ true)
        × (after.batches ≡ update batch_id (approval by now) s.batches)
        × (after.entries ≡ mark_paid batch_id now s)
  unfolding approve_batch
  approve_batch-eq_ok c s batch_id audit now h = elim (Option-cases audit.actor_id) [
    | inl missing ↦ absurd (ground arith)
    | inr (by, actor) ↦ elim (Option-cases (s.batches.row batch_id)) [
      | inl missing ↦ absurd (ground arith)
      | inr (b, found) ↦ (
        by,
        b,
        actor,
        found,
        ground arith,
        ground arith,
        ground arith,
        ground arith,
        ground arith,
      )
    ]
  ]

  -- An approval is of a DRAFT batch, by an actor with the permission who is not the one who prepared it.
  -- It makes the batch APPROVED in that actor's name, marks each entry that a line of the batch pays
  -- PAID, and leaves every other entry and batch as it was.
  pub approve_batch_lem :
      (c : Catalogue D) (s : Store D) (batch_id : ℕ) (audit : AuditContext) (now : ℕ)
      {after : Store D}
      → approve_batch c s batch_id audit now ≡ ok after
      → (by : ℕ) × (b : PayoutBatch D) × (audit.actor_id ≡ some by)
        × (c.permitted by payout_approve ≡ true)
        × (s.batches.row batch_id ≡ some b)
        × (b.status ≡ draft)
        × (b.prepared_by_id ≢ by)
        × (after.batches.row batch_id ≡ some (approval by now b))
        × ((k : ℕ) → k ≢ batch_id → after.batches.row k ≡ s.batches.row k)
        × ((k : ℕ) (e : CommissionEntry D)
            → is_in_batch batch_id k s.lines ≡ true
            → s.entries.row k ≡ some e
            → after.entries.row k ≡ some (record e { status = paid; paid_at = some now }))
        × ((k : ℕ) → is_in_batch batch_id k s.lines ≡ false → after.entries.row k ≡ s.entries.row k)
  approve_batch_lem c s batch_id audit now h =
      let (by, b, actor, found, is_new, other, may, batches, entries) =
        approve_batch-eq_ok c s batch_id audit now h in
      (
        by,
        b,
        actor,
        may,
        found,
        draft_of b.status is_new,
        other,
        rw (batches, found) (ground arith),
        λ k ne. rw batches (ground arith),
        λ k e inside row. rw entries (ground arith),
        λ k outside. rw entries (ground arith),
      )

  -- A batch is approved at most once: after an approval every further one is refused, whoever asks.
  pub approve_batch_once :
      (c : Catalogue D) (s : Store D) (batch_id : ℕ) (audit : AuditContext) (now : ℕ)
      {after : Store D} (again : AuditContext) (later : ℕ)
      → approve_batch c s batch_id audit now ≡ ok after
      → (e : PayoutError) × (approve_batch c after batch_id again later ≡ err e)
  approve_batch_once c s batch_id audit now {after} again later h =
      let (by, b, _, found, _, _, _, batches, _) = approve_batch-eq_ok c s batch_id audit now h in
      elim (Result-cases (approve_batch c after batch_id again later)) [
        | inl refused ↦ refused
        | inr (last, h') ↦
            let (_, b', _, found', is_new, _, _, _, _) =
              approve_batch-eq_ok c after batch_id again later h' in
            absurd (ground (arith, ap (λ (t : Table (PayoutBatch D)). t.row batch_id) batches))
      ]
