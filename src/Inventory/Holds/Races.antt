-- ===== src/Inventory/Holds/Races.antt =====
-- packages/services/src/holds.ts: what can come between the read and the write of a release and of an
-- extension, since neither reads again under a lock.
use desire_mlm_project.Base.{
  ℕ, ◌+◌, ◌≡◌, ◌<◌, false, Option, none, some, arith, ◌==◌, ok, Option-cases, inl, inr,
}
use desire_mlm_project.Inventory.Transitions.{available}
use desire_mlm_project.Inventory.Store.{
  InventoryUnit, UnitHold, Store, Project, Catalogue, AuditContext,
}
use desire_mlm_project.Inventory.Holds.{
  AcquireParams, ManualReleaseReason, acquire_hold, new_hold, read_release, write_hold_release,
  read_extension, write_extension,
}
use desire_mlm_project.Inventory.Holds.Acquire.{acquire_hold_lem}
use desire_mlm_project.Inventory.Holds.Release.{read_extension-eq_ok}

-- Two releases of one hold that both read it before either writes, with an acquire of the unit between
-- their writes: the second write leaves the acquired hold unreleased, and its unit AVAILABLE with no
-- hold.
pub releases_race :
    (c : Catalogue) (s : Store) (hold_id : ℕ) (reason reason' : ManualReleaseReason)
    (text text' : Option ℕ) (audit audit' : AuditContext) (now later e : ℕ) (hold hold' : UnitHold)
    (params : AcquireParams) {acquired : Store}
    → read_release s hold_id reason text ≡ ok hold
    → read_release s hold_id reason' text' ≡ ok hold'
    → params.unit_id ≡ hold.unit_id
    → params.new_hold_id == hold_id ≡ false
    → acquire_hold c (write_hold_release hold_id hold reason text audit now s) params
      ≡ ok (acquired, e)
    → (u : InventoryUnit) × ((write_hold_release hold_id hold' reason' text' audit' later
            acquired).holds.row
          params.new_hold_id
        ≡ some (new_hold params e))
      × ((write_hold_release hold_id hold' reason' text' audit' later acquired).units.row
            params.unit_id
          ≡ some (record u { status = available; current_hold_id = none }))
unfolding read_release write_hold_release
releases_race c s hold_id reason reason' text text' audit audit' now later e hold hold' params
      {acquired} first second on fresh took =
    let same : hold' ≡ hold = ground arith in
    let (_, _, _, _, _, by, row, _, _) =
      acquire_hold_lem c (write_hold_release hold_id hold reason text audit now s) params took in
    elim (Option-cases (acquired.units.row params.unit_id)) [
      | inl missing ↦ absurd (ground arith)
      | inr (u, is_u) ↦ (u, ground arith, ground arith)
    ]

-- Two extensions of one hold that both read it before either writes, where the project's maximum leaves
-- one: both are granted, the count goes beyond the maximum, and the expiry moves only once.
pub extensions_race :
    (c : Catalogue) (s : Store) (hold_id now later e e' : ℕ) (hold hold' : UnitHold)
    (u : InventoryUnit) (project : Project) (audit audit' : AuditContext)
    → read_extension c s hold_id now ≡ ok (hold, e)
    → read_extension c s hold_id later ≡ ok (hold', e')
    → s.units.row hold.unit_id ≡ some u
    → c.projects u.project_id ≡ some project
    → project.max_hold_extensions ≡ hold.extension_count + 1
    → (extended : UnitHold) × ((write_extension hold_id hold' e' audit'
            (write_extension hold_id hold e audit s)).holds.row
          hold_id
        ≡ some extended)
      × (project.max_hold_extensions < extended.extension_count)
      × (extended.expires_at ≡ e)
unfolding write_extension
extensions_race c s hold_id now later e e' hold hold' u project audit audit' first second row known
      one_left =
    let (_, _, found, _, row1, known1, at, _) = read_extension-eq_ok c s hold_id now first in
    let (_, _, found', _, row2, known2, at', _) = read_extension-eq_ok c s hold_id later second in
    (
      record hold { expires_at = e'; extension_count = hold.extension_count + 1 + 1 },
      ground arith,
      ground arith,
      ground arith,
    )
