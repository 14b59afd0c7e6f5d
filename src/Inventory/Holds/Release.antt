-- ===== src/Inventory/Holds/Release.antt =====
-- packages/services/src/holds.ts: `releaseHold` and `extendHold`.
use desire_mlm_project.Base.{
  ℕ, ◌+◌, ◌*◌, ◌≡◌, ◌≢◌, ◌<◌, true, Option, none, some, arith, Option-cases, inl, inr, ok, err,
  if◌then◌else◌,
}
use desire_mlm_project.Table.{update}
use desire_mlm_project.Inventory.Transitions.{available}
use desire_mlm_project.Inventory.Store.{
  InventoryUnit, UnitHold, Store, Project, Catalogue, AuditContext, hold_not_found, note_required,
}
use desire_mlm_project.Inventory.HoldExpiry.{is_hold_live, mark_released}
use desire_mlm_project.Inventory.Holds.{
  ManualReleaseReason, manual_reason, lacks_note, release_hold, read_extension, write_extension,
}
use desire_mlm_project.Inventory.Holds.Invariant.{IsLinked, free-IsLinked}

-- A release finds an unreleased hold; afterwards the hold is marked with the instant, the reason and
-- the actor, and its unit freed.
release_hold-eq_ok :
    (s : Store) (hold_id : ℕ) (reason : ManualReleaseReason) (text : Option ℕ)
    (audit : AuditContext) (now : ℕ) {after : Store}
    → release_hold s hold_id reason text audit now ≡ ok after
    → (hold : UnitHold) × (s.holds.row hold_id ≡ some hold)
      × (hold.released_at ≡ none)
      × (after.holds
          ≡ update hold_id (mark_released now (manual_reason reason) audit.actor_id) s.holds)
      × (after.units
          ≡ update hold.unit_id
              (λ u. record u { status = available; current_hold_id = none })
              s.units)
unfolding release_hold
release_hold-eq_ok s hold_id reason text audit now {after} h =
    elim (Option-cases (s.holds.row hold_id)) [
      | inl missing ↦ absurd (ground arith)
      | inr (hold, found) ↦ (hold, found, ground arith, ground arith, ground arith)
    ]

-- A release keeps every unreleased hold linked to its unit.
pub release_hold-IsLinked :
    (s : Store) (hold_id : ℕ) (reason : ManualReleaseReason) (text : Option ℕ)
    (audit : AuditContext) (now : ℕ) {after : Store}
    → IsLinked s
    → release_hold s hold_id reason text audit now ≡ ok after
    → IsLinked after
release_hold-IsLinked s hold_id reason text audit now linked h =
    let (hold, found, unreleased, holds, units) =
      release_hold-eq_ok s hold_id reason text audit now h in
    rw (holds, units)
      (free-IsLinked s hold_id linked (mark_released now (manual_reason reason) audit.actor_id)
        (λ old. ground arith) found unreleased)

-- Whoever asks again, for whatever reason and whenever: it is the hold that is missing, if not the note.
release_again :
    (s : Store) (hold_id : ℕ) {hold : UnitHold}
    → s.holds.row hold_id ≡ some hold
    → hold.released_at ≢ none
    → (reason : ManualReleaseReason) (text : Option ℕ) (audit : AuditContext) (now : ℕ)
    → release_hold s hold_id reason text audit now
      ≡ err (if lacks_note reason text then note_required else hold_not_found)
unfolding release_hold
release_again s hold_id found released reason text audit now = ground arith

-- After a release from a linked store, nothing coming between its read and its lock, the unit that the
-- hold was on is AVAILABLE and points at no hold; all other units and holds are as they were; and every
-- later release of the hold is refused, whoever asks, with whatever reason and note.
pub release_hold_lem :
    (s : Store) (hold_id : ℕ) (reason : ManualReleaseReason) (text : Option ℕ)
    (audit : AuditContext) (now : ℕ) {after : Store}
    → IsLinked s
    → release_hold s hold_id reason text audit now ≡ ok after
    → (hold : UnitHold) × (u : InventoryUnit) × (s.holds.row hold_id ≡ some hold)
      × (s.units.row hold.unit_id ≡ some u)
      × (after.units.row hold.unit_id
          ≡ some (record u { status = available; current_hold_id = none }))
      × ((k : ℕ) → k ≢ hold.unit_id → after.units.row k ≡ s.units.row k)
      × ((k : ℕ) → k ≢ hold_id → after.holds.row k ≡ s.holds.row k)
      × ((reason' : ManualReleaseReason) (text' : Option ℕ) (audit' : AuditContext) (later : ℕ)
          → release_hold after hold_id reason' text' audit' later
            ≡ err (if lacks_note reason' text' then note_required else hold_not_found))
release_hold_lem s hold_id reason text audit now {after} linked h =
    let (hold, found, unreleased, holds, units) =
      release_hold-eq_ok s hold_id reason text audit now h in
    let by = linked hold_id hold found unreleased in
    elim (Option-cases (s.units.row hold.unit_id)) [
      | inl missing ↦ absurd (ground arith)
      | inr (u, row) ↦ (
        hold,
        u,
        found,
        row,
        rw (units, row) (ground arith),
        λ k ne. rw units (ground arith),
        λ k ne. rw holds (ground arith),
        release_again after hold_id
            {hold = mark_released now (manual_reason reason) audit.actor_id hold}
            (rw (holds, found) (ground arith)) (ground arith),
      )
    ]

-- What an extension reads: a live hold, with extensions left.
pub read_extension-eq_ok :
    (c : Catalogue) (s : Store) (hold_id now : ℕ) {hold : UnitHold} {e : ℕ}
    → read_extension c s hold_id now ≡ ok (hold, e)
    → (u : InventoryUnit) × (project : Project) × (s.holds.row hold_id ≡ some hold)
      × (is_hold_live hold now ≡ true)
      × (s.units.row hold.unit_id ≡ some u)
      × (c.projects u.project_id ≡ some project)
      × (e ≡ hold.expires_at + project.hold_extension_minutes * 60_000)
      × (hold.extension_count < project.max_hold_extensions)
unfolding read_extension
read_extension-eq_ok c s hold_id now {hold} {e} h = elim (Option-cases (s.holds.row hold_id)) [
  | inl missing ↦ absurd (ground arith)
  | inr (old, found) ↦ elim (Option-cases (s.units.row old.unit_id)) [
    | inl missing ↦ absurd (ground arith)
    | inr (u, row) ↦ elim (Option-cases (c.projects u.project_id)) [
      | inl missing ↦ absurd (ground arith)
      | inr (project, known) ↦
          (u, project, ground arith, ground arith, ground arith, known, ground arith, ground arith)
    ]
  ]
]

-- The write of an extension, whatever it had read, keeps every unreleased hold linked to its unit.
pub write_extension-IsLinked :
    (s : Store) (hold_id : ℕ) (hold : UnitHold) (e : ℕ) (audit : AuditContext)
    → IsLinked s
    → IsLinked (write_extension hold_id hold e audit s)
unfolding write_extension
write_extension-IsLinked s hold_id hold e audit linked id new found unreleased =
    elim (Option-cases (s.holds.row id)) [
      | inl missing ↦ absurd (ground arith)
      | inr (old, row) ↦ ground (arith, linked id old)
    ]
