-- ===== src/Inventory/Holds.antt =====
-- packages/services/src/holds.ts: acquiring, releasing and extending a hold. `acquireHold` takes the row
-- lock of its unit before it reads anything. `releaseHold` takes it after its only read and `extendHold`
-- takes none, so both are split in what they read and what they write. A transaction that throws leaves
-- the store as it was. Identifiers that the database generates are arguments; the number 0 is the empty
-- text.
pub mod Invariant
pub mod Acquire
pub mod Release
pub mod Sweep
pub mod SweepEffects
pub mod Reachable
pub mod Races
pub mod Lapsed
use desire_mlm_project.Base.{
  ℕ, ◌+◌, ◌*◌, Bool, true, false, not, ◌&&◌, Option, none, some, [], ◌∷◌, ◌++◌, ltb, leb, ◌==◌, any,
  if◌then◌else◌, Result, ok, ◌>>=◌, ◌>>◌, or_throw, throw_if,
}
use desire_mlm_project.Table.{update, insert, count, find_first}
use desire_mlm_project.Inventory.Transitions.{
  UnitStatus, available, held, is_status, assert_valid_transition,
}
use desire_mlm_project.Inventory.HoldExpiry.{
  is_hold_live, free_unit, add_history, mark_released, lazy_expiry,
}
use desire_mlm_project.Inventory.Store.{
  ReleaseReason, released_by_associate, released_by_admin, InventoryUnit, UnitHold, HistoryReason,
  hold_acquired, noted, by_reason, AuditContext, hold_created, hold_released, hold_extended, Store,
  Project, PriceList, Catalogue, HoldError, unit_not_found, project_not_found, no_active_price_list,
  note_required, hold_not_found, unit_not_available, hold_quota_exceeded, hold_extension_limit,
  illegal_transition, is_null,
}

-- Acquire

abbrev pub holder_of : Option UnitHold → Option ℕ
holder_of none = none
holder_of (some hold) = some hold.associate_id

-- `currentHolder`: the associate, whose code and name the message then looks up
unfoldable pub current_holder : Store → Option ℕ → Option ℕ
current_holder s none = none
current_holder s (some hold_id) = holder_of (s.holds.row hold_id)

abbrev pub is_active_on : ℕ → UnitHold → Bool
is_active_on unit_id hold = hold.unit_id == unit_id && is_null hold.released_at

abbrev pub first_holder : Option (ℕ × UnitHold) → Option ℕ
first_holder none = none
first_holder (some (_, hold)) = some hold.associate_id

unfoldable pub current_holder_by_unit : Store → ℕ → Option ℕ
current_holder_by_unit s unit_id = first_holder (find_first (is_active_on unit_id) s.holds)

abbrev pub in_validity : ℕ → Option ℕ → Bool
in_validity now none = true
in_validity now (some valid_to) = ltb now valid_to

abbrev pub has_active_price_list : Catalogue → ℕ → ℕ → Bool
has_active_price_list c project_id now =
    any
      (λ (l : PriceList).
        l.project_id == project_id
        && l.is_active
        && leb l.valid_from now
        && in_validity now l.valid_to)
      c.price_lists

-- `grade?.holdQuota ?? 0`
abbrev pub or_zero : Option ℕ → ℕ
or_zero none = 0
or_zero (some quota) = quota

abbrev pub is_live_of : ℕ → ℕ → UnitHold → Bool
is_live_of associate_id now hold = hold.associate_id == associate_id && is_hold_live hold now

unfoldable pub assert_quota_available : Catalogue → Store → ℕ → ℕ → Result HoldError (Unit {0})
assert_quota_available c s associate_id now =
    let quota = or_zero (c.grade_quota associate_id) in
    let live_holds = count (is_live_of associate_id now) s.holds in
    throw_if (leb quota live_holds) (hold_quota_exceeded associate_id quota live_holds)

pub record AcquireParams : Type 0 where
  pub unit_id : ℕ
  pub associate_id : ℕ
  pub lead_id : Option ℕ
  pub audit : AuditContext
  pub now : ℕ
  -- the identifier that the database gives to the new row
  pub new_hold_id : ℕ

abbrev pub expiry : Project → ℕ → ℕ
expiry project now = now + project.hold_ttl_minutes * 60_000

abbrev pub new_hold : AcquireParams → ℕ → UnitHold
new_hold params expires_at = record {
  org_id = params.audit.org_id;
  unit_id = params.unit_id;
  associate_id = params.associate_id;
  lead_id = params.lead_id;
  expires_at = expires_at;
  extension_count = 0;
  released_at = none;
  release_reason = none;
  released_by_id = none;
}

-- Step 4: the hold, the unit, the history and the audit row.
unfoldable pub place_hold : AcquireParams → ℕ → Store → Store
place_hold params expires_at s =
    let t =
      add_history params.unit_id available held hold_acquired params.audit.actor_id (record s {
        holds = insert params.new_hold_id (new_hold params expires_at) s.holds;
        units =
            update params.unit_id
              (λ u. record u { status = held; current_hold_id = some params.new_hold_id }) s.units;
      }) in
    record t {
      audit_log =
          t.audit_log
          ++ ((
            params.audit,
            hold_created params.new_hold_id params.unit_id params.associate_id expires_at,
          )
              ∷ []);
    }

-- The partial unique index one_active_hold_per_unit refuses a second unreleased hold of the unit; the
-- `catch` turns that refusal into the same error, read from the database as it was before.
abbrev pub check_index : Store → Store → ℕ → Result HoldError (Unit {0})
check_index before s unit_id =
    throw_if (not (is_null (find_first (is_active_on unit_id) s.holds)))
      (unit_not_available held (current_holder_by_unit before unit_id))

-- Steps 3 and 4, on the store and the status that lazy expiry leaves.
unfoldable pub acquire_checked :
    Catalogue
    → Store
    → AcquireParams
    → InventoryUnit
    → Store × UnitStatus
    → Result HoldError (Store × ℕ)
unfolding assert_valid_transition assert_quota_available current_holder place_hold
acquire_checked c before params u (s, status) = do
  throw_if (not (is_status status available))
      (unit_not_available status (current_holder s u.current_hold_id))
  assert_valid_transition illegal_transition available held
  project ← or_throw (c.projects u.project_id) project_not_found
  throw_if (not (has_active_price_list c u.project_id params.now)) no_active_price_list
  assert_quota_available c s params.associate_id params.now
  check_index before s params.unit_id
  ok (place_hold params (expiry project params.now) s, expiry project params.now)

-- The new store and `expiresAt`; the hold and the unit of the result are those of the parameters.
unfoldable pub acquire_hold : Catalogue → Store → AcquireParams → Result HoldError (Store × ℕ)
unfolding acquire_checked lazy_expiry
acquire_hold c s params = do
  u ← or_throw (s.units.row params.unit_id) unit_not_found
  acquire_checked c s params u (lazy_expiry params.now params.unit_id u s)

-- Release

pub data ManualReleaseReason : Type 0 where
  by_associate by_admin : ManualReleaseReason

abbrev pub manual_reason : ManualReleaseReason → ReleaseReason
manual_reason by_associate = released_by_associate
manual_reason by_admin = released_by_admin

-- `!note`: none is given, or the empty text.
abbrev pub is_blank : Option ℕ → Bool
is_blank none = true
is_blank (some text) = text == 0

-- `RELEASED_BY_ADMIN` without a note
abbrev pub lacks_note : ManualReleaseReason → Option ℕ → Bool
lacks_note by_associate _ = false
lacks_note by_admin text = is_blank text

-- `params.note ?? params.reason`
abbrev pub note_or : Option ℕ → ReleaseReason → HistoryReason
note_or none reason = by_reason reason
note_or (some note) reason = noted note

-- `findFirst({ where: { id, releasedAt: null } })`
abbrev pub unreleased : Option UnitHold → Option UnitHold
unreleased none = none
unreleased (some hold) = if is_null hold.released_at then some hold else none

-- What `releaseHold` reads, before it takes the lock.
unfoldable pub read_release :
    Store → ℕ → ManualReleaseReason → (note : Option ℕ) → Result HoldError UnitHold
read_release s hold_id reason note =
    throw_if (lacks_note reason note) note_required
    >> or_throw (unreleased (s.holds.row hold_id)) hold_not_found

-- What it writes under the lock; `hold` is the row as it was read.
unfoldable pub write_hold_release :
    ℕ → UnitHold → ManualReleaseReason → (note : Option ℕ) → AuditContext → ℕ → Store → Store
write_hold_release hold_id hold reason note audit now s =
    let t =
      add_history hold.unit_id held available (note_or note (manual_reason reason)) audit.actor_id (
        free_unit hold.unit_id (record s {
          holds = update hold_id (mark_released now (manual_reason reason) audit.actor_id) s.holds;
        })) in
    record t {
      audit_log =
          t.audit_log ++ ((audit, hold_released hold_id now (manual_reason reason) note) ∷ []);
    }

-- A release in which nothing comes between the read and the lock.
unfoldable pub release_hold :
    Store → ℕ → ManualReleaseReason → (note : Option ℕ) → AuditContext → ℕ → Result HoldError Store
unfolding read_release write_hold_release
release_hold s hold_id reason note audit now = do
  hold ← read_release s hold_id reason note
  ok (write_hold_release hold_id hold reason note audit now s)

-- Extend

abbrev pub live : ℕ → Option UnitHold → Option UnitHold
live now none = none
live now (some hold) = if is_hold_live hold now then some hold else none

-- What `extendHold` reads: the hold, and when it is to run out. The unit of a hold exists, since the
-- database keeps the reference.
unfoldable pub read_extension : Catalogue → Store → ℕ → ℕ → Result HoldError (UnitHold × ℕ)
read_extension c s hold_id now = do
  hold ← or_throw (live now (s.holds.row hold_id)) hold_not_found
  u ← or_throw (s.units.row hold.unit_id) unit_not_found
  project ← or_throw (c.projects u.project_id) project_not_found
  throw_if (leb project.max_hold_extensions hold.extension_count)
      (hold_extension_limit project.max_hold_extensions)
  ok (hold, hold.expires_at + project.hold_extension_minutes * 60_000)

-- What it writes; `hold` is the row as it was read, the count is incremented by the database.
unfoldable pub write_extension : ℕ → UnitHold → ℕ → AuditContext → Store → Store
write_extension hold_id hold expires_at audit s = record s {
  holds =
      update hold_id
        (λ h. record h { expires_at = expires_at; extension_count = h.extension_count + 1 })
        s.holds;
  audit_log =
      s.audit_log
      ++ ((
        audit,
        hold_extended hold_id hold.expires_at hold.extension_count expires_at
            (hold.extension_count + 1),
      )
          ∷ []);
}

-- An extension in which nothing comes between the read and the write.
unfoldable pub extend_hold : Catalogue → Store → ℕ → AuditContext → ℕ → Result HoldError (Store × ℕ)
unfolding read_extension write_extension
extend_hold c s hold_id audit now = do
  (hold, expires_at) ← read_extension c s hold_id now
  ok (write_extension hold_id hold expires_at audit s, expires_at)
