-- ===== src/Inventory/Holds/Acquire.antt =====
-- packages/services/src/holds.ts: `acquireHold` keeps the invariant, never meets the unique index, and
-- gives a unit to one associate at a time.
use desire_mlm_project.Base.{
  ℕ, ◌+◌, ◌*◌, ◌≡◌, ◌≢◌, ◌<◌, refl, true, ◌&&◌, none, some, arith, Option-cases, Bool-cases, inl,
  inr, ◌⊎◌, ok, err, ◌∙◌,
}
use desire_mlm_project.Table.{count, find_first}
use desire_mlm_project.Inventory.Transitions.{UnitStatus, available, held, is_status}
use desire_mlm_project.Inventory.Store.{
  InventoryUnit, UnitHold, Store, Project, Catalogue, unit_not_available,
}
use desire_mlm_project.Inventory.HoldExpiry.{
  is_hold_live, is_gone, lazy_expiry, free_lazily, effective_unit_status,
}
use desire_mlm_project.Inventory.Holds.{
  AcquireParams, acquire_hold, acquire_checked, place_hold, is_active_on, expiry, check_index,
  current_holder, has_active_price_list, is_live_of, or_zero, new_hold,
}
use desire_mlm_project.Inventory.Holds.Invariant.{
  IsLinked, held_by, linked-not_active, find_first_from-none, free_lazily-IsLinked,
  place_hold-IsLinked,
}

-- The hold that the unit points at has gone, and the unit is freed; or nothing changes.
pub lazy_expiry-cases :
    (now unit_id : ℕ) (u : InventoryUnit) (s : Store)
    → ((hold_id : ℕ) × (lazy_expiry now unit_id u s
          ≡ (free_lazily now unit_id hold_id s, available))
        × (u.status ≡ held)
        × (u.current_hold_id ≡ some hold_id)
        × (is_gone (s.holds.row hold_id) now ≡ true))
      ⊎ (lazy_expiry now unit_id u s ≡ (s, u.status))
unfolding lazy_expiry
lazy_expiry-cases now unit_id u s = elim (Option-cases u.current_hold_id) [
  | inl nowhere ↦ inr (ground arith)
  | inr (hold_id, at) ↦
      elim (Bool-cases (is_status u.status held && is_gone (s.holds.row hold_id) now)) [
        | inl gone ↦ inl (hold_id, ground arith, ground arith, at, ground arith)
        | inr stays ↦ inr (ground arith)
      ]
]

module _ (now unit_id : ℕ) (s : Store) {u : InventoryUnit}
    (row : s.units.row unit_id ≡ some u) where
  lazy_expiry-IsLinked : IsLinked s → IsLinked (lazy_expiry now unit_id u s).0
  lazy_expiry-IsLinked linked = elim (lazy_expiry-cases now unit_id u s) [
    | inl (hold_id, same, status, at, gone) ↦
        rw same (free_lazily-IsLinked s hold_id linked now unit_id (rw row (ground arith)))
    | inr same ↦ rw same linked
  ]

  -- The unit in the store that lazy expiry leaves has the status that it returns.
  lazy_expiry-status :
      (u' : InventoryUnit) × ((lazy_expiry now unit_id u s).0.units.row unit_id ≡ some u')
      × (u'.status ≡ (lazy_expiry now unit_id u s).1)
  lazy_expiry-status = elim (lazy_expiry-cases now unit_id u s) [
    | inl (hold_id, same, status, at, gone) ↦
        rw same
          (record u { status = available; current_hold_id = none }, rw row (ground arith), refl)
    | inr same ↦ rw same (u, row, refl)
  ]

  -- It returns what a reader takes the status to be.
  pub lazy_expiry-effective :
      u.current_hold_id ≢ none
      → (hold_id : ℕ) → u.current_hold_id ≡ some hold_id
      → (lazy_expiry now unit_id u s).1 ≡ effective_unit_status u.status (s.holds.row hold_id) now
  unfolding lazy_expiry effective_unit_status
  lazy_expiry-effective n hold_id at = ground arith

-- What a successful acquire has passed, from the store and the status that lazy expiry left.
pub record Acquired (c : Catalogue) (params : AcquireParams) (u : InventoryUnit) (t : Store)
    (status : UnitStatus) (after : Store) (expires_at : ℕ) : Type 0 where
  pub project : Project
  pub was_available : status ≡ available
  pub project_found : c.projects u.project_id ≡ some project
  pub priced : has_active_price_list c u.project_id params.now ≡ true
  pub within_quota :
      count (is_live_of params.associate_id params.now) t.holds
      < or_zero (c.grade_quota params.associate_id)
  pub expires : expires_at ≡ expiry project params.now
  pub placed : after ≡ place_hold params expires_at t

acquire_checked-eq_ok :
    (c : Catalogue) (s : Store) (params : AcquireParams) (u : InventoryUnit) (t : Store)
    (status : UnitStatus) (after : Store) (e : ℕ)
    → acquire_checked c s params u (t, status) ≡ ok (after, e)
    → Acquired c params u t status after e
unfolding acquire_checked
acquire_checked-eq_ok c s params u t status after e h =
    elim (Option-cases (c.projects u.project_id)) [
      | inl missing ↦ absurd (ground arith)
      | inr (project, found) ↦ record {
        project = project;
        was_available = ground arith;
        project_found = found;
        priced = ground arith;
        within_quota = ground arith;
        expires = ground arith;
        placed = ground arith;
      }
    ]

-- A hold that is acquired was refused by none of the guards: the unit exists and was available
-- or held by a hold that had run out, and so on.
acquire_hold-eq_ok :
    (c : Catalogue) (s : Store) (params : AcquireParams) (after : Store) (e : ℕ)
    → acquire_hold c s params ≡ ok (after, e)
    → (u : InventoryUnit) × (s.units.row params.unit_id ≡ some u)
      × (let (t, status) = lazy_expiry params.now params.unit_id u s in
          Acquired c params u t status after e)
unfolding acquire_hold
acquire_hold-eq_ok c s params after e h = elim (Option-cases (s.units.row params.unit_id)) [
  | inl missing ↦ absurd (ground arith)
  | inr (u, found) ↦ (u, found, acquire_checked-eq_ok c s params u _ _ after e (rw found at h))
]

pub check_index-IsLinked :
    (before s : Store) (now unit_id : ℕ) {u : InventoryUnit}
    → IsLinked s
    → s.units.row unit_id ≡ some u
    → (lazy_expiry now unit_id u s).1 ≡ available
    → check_index before (lazy_expiry now unit_id u s).0 unit_id ≡ ok tt
check_index-IsLinked before s now unit_id {u} linked row free =
    let t = (lazy_expiry now unit_id u s).0 in
    let (u', row', status) = lazy_expiry-status now unit_id s row in
    let unheld : find_first (is_active_on unit_id) t.holds ≡ none =
      find_first_from-none (is_active_on unit_id) t.holds.row t.holds.ids (
        linked-not_active t unit_id (lazy_expiry-IsLinked now unit_id s row linked) row'
          (status ∙ free)) in
    rw unheld

-- A successful acquire keeps every unreleased hold linked to its unit.
pub acquire_hold-IsLinked :
    (c : Catalogue) (s : Store) (params : AcquireParams) {after : Store} {e : ℕ}
    → IsLinked s
    → acquire_hold c s params ≡ ok (after, e)
    → IsLinked after
acquire_hold-IsLinked c s params {after} {e} linked h =
    let (u, row, a) = acquire_hold-eq_ok c s params after e h in
    let t = (lazy_expiry params.now params.unit_id u s).0 in
    let (u', row', status) = lazy_expiry-status params.now params.unit_id s row in
    let linked' = lazy_expiry-IsLinked params.now params.unit_id s row linked in
    rw a.placed (
      place_hold-IsLinked t params e linked' row'
        (linked-not_active t params.unit_id linked' row' (status ∙ a.was_available)))

lazy_expiry-units :
    (now unit_id : ℕ) (u : InventoryUnit) (s : Store) (k : ℕ)
    → k ≢ unit_id
    → (lazy_expiry now unit_id u s).0.units.row k ≡ s.units.row k
unfolding lazy_expiry
lazy_expiry-units now unit_id u s k ne = elim (Option-cases u.current_hold_id) [
  | inl nowhere ↦ ground arith
  | inr (hold_id, at) ↦ ground arith
]

-- After a successful acquire the unit is HELD by the new hold, which is the caller's, unreleased, and
-- runs out the project's time to live after now; every other unit is as it was; and the associate's
-- quota exceeded the number of live holds before.
pub acquire_hold_lem :
    (c : Catalogue) (s : Store) (params : AcquireParams) {after : Store} {e : ℕ}
    → acquire_hold c s params ≡ ok (after, e)
    → (u : InventoryUnit) × (project : Project) × (s.units.row params.unit_id ≡ some u)
      × (c.projects u.project_id ≡ some project)
      × (e ≡ params.now + project.hold_ttl_minutes * 60_000)
      × (held_by params.new_hold_id (after.units.row params.unit_id) ≡ true)
      × (after.holds.row params.new_hold_id ≡ some (new_hold params e))
      × ((k : ℕ) → k ≢ params.unit_id → after.units.row k ≡ s.units.row k)
      × (count
            (is_live_of params.associate_id params.now)
            (lazy_expiry params.now params.unit_id u s).0.holds
          < or_zero (c.grade_quota params.associate_id))
unfolding place_hold
acquire_hold_lem c s params {after} {e} h =
    let (u, row, a) = acquire_hold-eq_ok c s params after e h in
    let (u', row', status) = lazy_expiry-status params.now params.unit_id s row in
    (
      u,
      a.project,
      row,
      a.project_found,
      a.expires,
      rw (a.placed, row') (ground arith),
      rw a.placed (ground arith),
      λ k ne. rw a.placed (ground (arith, lazy_expiry-units params.now params.unit_id u s k)),
      a.within_quota,
    )

-- A unit that is HELD by a live hold is refused to everybody, with the holder named.
pub acquire_hold-refused :
    (c : Catalogue) (s : Store) (params : AcquireParams) {hold_id : ℕ} {hold : UnitHold}
    → held_by hold_id (s.units.row params.unit_id) ≡ true
    → s.holds.row hold_id ≡ some hold
    → is_hold_live hold params.now ≡ true
    → acquire_hold c s params ≡ err (unit_not_available held (some hold.associate_id))
unfolding acquire_hold acquire_checked lazy_expiry current_holder
acquire_hold-refused c s params {hold_id} {hold} by found live =
    elim (Option-cases (s.units.row params.unit_id)) [
      | inl missing ↦ absurd (ground arith)
      | inr (u, row) ↦ ground arith
    ]

-- Of two acquires of a unit the second is refused until the first hold runs out.
pub acquire_hold-once :
    (c : Catalogue) (s : Store) (first second : AcquireParams) {after : Store} {e : ℕ}
    → acquire_hold c s first ≡ ok (after, e)
    → second.unit_id ≡ first.unit_id
    → second.now < e
    → acquire_hold c after second ≡ err (unit_not_available held (some first.associate_id))
acquire_hold-once c s first second {after} {e} h same early =
    let (u, project, row, found, expires, by, new, _, _) = acquire_hold_lem c s first h in
    acquire_hold-refused c after second (rw same by) new (ground arith)
