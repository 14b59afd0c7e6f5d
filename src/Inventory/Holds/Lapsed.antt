-- ===== src/Inventory/Holds/Lapsed.antt =====
-- packages/services/src/holds.ts: a hold that has run out does not keep its unit from others, though no
-- sweep has come by.
use desire_mlm_project.Base.{
  ℕ, ◌≡◌, ◌<◌, refl, Bool, true, Option, some, List, [], ◌∷◌, arith, inl, inr, ◌⊎◌, ok,
  Option-cases,
}
use desire_mlm_project.Table.{count, count_from, passes}
use desire_mlm_project.Inventory.Transitions.{
  UnitStatus, available, held, assert_valid_transition, is_valid_transition,
}
use desire_mlm_project.Inventory.Store.{InventoryUnit, Store, Project, Catalogue}
use desire_mlm_project.Inventory.HoldExpiry.{is_gone, lazy_expiry}
use desire_mlm_project.Inventory.Holds.{
  AcquireParams, acquire_hold, acquire_checked, assert_quota_available, check_index, expiry,
  has_active_price_list, is_live_of, or_zero, place_hold,
}
use desire_mlm_project.Inventory.Holds.Invariant.{IsLinked}
use desire_mlm_project.Inventory.Holds.Acquire.{lazy_expiry-cases, check_index-IsLinked}

-- The unit is AVAILABLE, or HELD by a hold that has run out, was released, or is there no more.
abbrev pub IsFree : InventoryUnit → Store → ℕ → Type 0
IsFree u s now =
    (u.status ≡ available)
    ⊎ ((hold_id : ℕ) × (u.status ≡ held)
        × (u.current_hold_id ≡ some hold_id)
        × (is_gone (s.holds.row hold_id) now ≡ true))

lazy_expiry-IsFree :
    (now unit_id : ℕ) (u : InventoryUnit) (s : Store)
    → IsFree u s now
    → (lazy_expiry now unit_id u s).1 ≡ available
unfolding lazy_expiry
lazy_expiry-IsFree now unit_id u s (inl free) = ground arith
lazy_expiry-IsFree now unit_id u s (inr (hold_id, status, at, gone)) = ground arith

count_from-cong :
    {A : Type 0} (p : A → Bool) (row row' : ℕ → Option A) (ids : List ℕ)
    → ((k : ℕ) → passes p (row k) ≡ passes p (row' k))
    → count_from p row ids ≡ count_from p row' ids
count_from-cong p row row' [] same = refl
count_from-cong p row row' (id ∷ ids) same = rw (same id, count_from-cong p row row' ids same) refl

-- Lazy expiry marks no hold that is live, so it leaves everybody's live holds as many as they were.
lazy_expiry-count :
    (now unit_id associate_id : ℕ) (u : InventoryUnit) (s : Store)
    → count (is_live_of associate_id now) (lazy_expiry now unit_id u s).0.holds
      ≡ count (is_live_of associate_id now) s.holds
lazy_expiry-count now unit_id associate_id u s = elim (lazy_expiry-cases now unit_id u s) [
  | inl (hold_id, same, status, at, gone) ↦ rw same (
      count_from-cong (is_live_of associate_id now) _ _ s.holds.ids (λ k.
        elim (Option-cases (s.holds.row k)) [
          | inl missing ↦ ground arith
          | inr (hold, found) ↦ ground arith
        ]))
  | inr same ↦ rw same refl
]

-- Steps 3 and 4 where every guard lets the caller through.
acquire_checked-ok :
    (c : Catalogue) (before s : Store) (params : AcquireParams) (u : InventoryUnit)
    (status : UnitStatus) {project : Project}
    → status ≡ available
    → c.projects u.project_id ≡ some project
    → has_active_price_list c u.project_id params.now ≡ true
    → count (is_live_of params.associate_id params.now) s.holds
      < or_zero (c.grade_quota params.associate_id)
    → check_index before s params.unit_id ≡ ok tt
    → acquire_checked c before params u (s, status)
      ≡ ok (place_hold params (expiry project params.now) s, expiry project params.now)
unfolding acquire_checked assert_quota_available assert_valid_transition is_valid_transition
acquire_checked-ok c before s params u status free known priced quota index =
    rw (free, known, priced, index) (ground arith)

-- In a linked store a unit that is AVAILABLE, or HELD by a hold that is no longer live, can be acquired
-- by every associate with quota left, where its project is known and has an active price list.
pub acquire_hold-IsFree :
    (c : Catalogue) (s : Store) (params : AcquireParams) {u : InventoryUnit} {project : Project}
    → IsLinked s
    → s.units.row params.unit_id ≡ some u
    → IsFree u s params.now
    → c.projects u.project_id ≡ some project
    → has_active_price_list c u.project_id params.now ≡ true
    → count (is_live_of params.associate_id params.now) s.holds
      < or_zero (c.grade_quota params.associate_id)
    → (after : Store) × (acquire_hold c s params ≡ ok (after, expiry project params.now))
unfolding acquire_hold
acquire_hold-IsFree c s params {u} {project} linked row free known priced quota =
    let t = (lazy_expiry params.now params.unit_id u s).0 in
    let status = lazy_expiry-IsFree params.now params.unit_id u s free in
    let index = check_index-IsLinked s s params.now params.unit_id linked row status in
    let counted = lazy_expiry-count params.now params.unit_id params.associate_id u s in
    (
      place_hold params (expiry project params.now) t,
      rw row (acquire_checked-ok c s t params u _ status known priced (rw counted quota) index),
    )
