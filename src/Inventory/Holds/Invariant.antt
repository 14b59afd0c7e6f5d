-- ===== src/Inventory/Holds/Invariant.antt =====
-- packages/services/src/holds.ts: the unit of every unreleased hold is HELD and points back at it. The
-- operations keep this.
use mathlib.Core.Option.{some-injective}
use desire_mlm_project.Base.{
  ℕ, ◌≡◌, ◌≢◌, refl, Bool, true, false, ◌&&◌, Option, none, some, List, [], ◌∷◌, arith, ◌==◌,
  Bool-cases, Option-cases, ap, ◌∙◌, inl, inr,
}
use desire_mlm_project.Table.{find_first_from, map_row, update}
use desire_mlm_project.Inventory.Transitions.{available, held, is_status}
use desire_mlm_project.Inventory.Store.{InventoryUnit, UnitHold, Store}
use desire_mlm_project.Inventory.HoldExpiry.{free_lazily, free_unit, is_id}
use desire_mlm_project.Inventory.Holds.{AcquireParams, place_hold, is_active_on}

-- The unit is HELD by the hold `id`.
abbrev pub held_by : ℕ → Option InventoryUnit → Bool
held_by id none = false
held_by id (some u) = is_status u.status held && is_id id u.current_hold_id

-- Every unreleased hold is the one that its unit is held by.
abbrev pub IsLinked : Store → Type 0
IsLinked s =
    (id : ℕ) (hold : UnitHold)
    → s.holds.row id ≡ some hold
    → hold.released_at ≡ none
    → held_by id (s.units.row hold.unit_id) ≡ true

pub held_by_unique :
    (a b : ℕ) (u : Option InventoryUnit) → held_by a u ≡ true → held_by b u ≡ true → a ≡ b
held_by_unique a b none p q = cc
held_by_unique a b (some u) p q = ground arith

pub find_first_from-none :
    {A : Type 0} (p : A → Bool) (row : ℕ → Option A) (ids : List ℕ)
    → ((id : ℕ) (a : A) → row id ≡ some a → p a ≡ false)
    → find_first_from p row ids ≡ none
find_first_from-none p row [] h = refl
find_first_from-none p row (id ∷ ids) h = elim (Option-cases (row id)) [
  | inl e ↦ rw e (find_first_from-none p row ids h)
  | inr (a, e) ↦ rw (e, h id a e) (find_first_from-none p row ids h)
]

-- In a linked store an unreleased hold is on no unit that is available.
pub linked-not_active :
    (s : Store) (unit_id : ℕ) {u : InventoryUnit}
    → IsLinked s
    → s.units.row unit_id ≡ some u
    → u.status ≡ available
    → (id : ℕ) (hold : UnitHold) → s.holds.row id ≡ some hold
    → is_active_on unit_id hold ≡ false
linked-not_active s unit_id linked row status id hold e = ground (arith, linked id hold e)

map_row-released :
    (mark : UnitHold → UnitHold) (row : Option UnitHold) {h : UnitHold}
    → ((old : UnitHold) → (mark old).released_at ≢ none)
    → map_row mark row ≡ some h
    → h.released_at ≢ none
map_row-released mark none marks e n = cc
map_row-released mark (some old) marks e n =
    marks old (ap (λ h. h.released_at) (some-injective _ _ e) ∙ n)

module _ (s : Store) (hold_id : ℕ) (linked : IsLinked s) where
  -- Releasing an unreleased hold and freeing its unit, in whatever way the row is marked.
  pub free-IsLinked :
      (mark : UnitHold → UnitHold) {hold : UnitHold}
      → ((h : UnitHold) → (mark h).released_at ≢ none)
      → s.holds.row hold_id ≡ some hold
      → hold.released_at ≡ none
      → IsLinked (free_unit hold.unit_id (record s { holds = update hold_id mark s.holds }))
  free-IsLinked mark {hold} marks row unreleased id h e n = elim (Bool-cases (id == hold_id)) [
    | inl same ↦ absurd (map_row-released mark (s.holds.row id) marks (rw same at e) n)
    | inr other ↦ ground (
      arith,
      linked id h,
      linked hold_id hold row unreleased,
      held_by_unique id hold_id (s.units.row hold.unit_id),
    )
  ]

  -- Freeing a unit that is held by `hold_id`, whose row is released now, is there no more, or was
  -- released before.
  pub free_lazily-IsLinked :
      (now unit_id : ℕ)
      → held_by hold_id (s.units.row unit_id) ≡ true
      → IsLinked (free_lazily now unit_id hold_id s)
  free_lazily-IsLinked now unit_id by id h e n = elim (Bool-cases (id == hold_id)) [
    | inl same ↦ absurd (map_row-released _ (s.holds.row id) (λ old. ground arith) (rw same at e) n)
    | inr other ↦ ground (arith, linked id h, held_by_unique id hold_id (s.units.row unit_id))
  ]

-- Placing a hold with a new identifier on a unit that no unreleased hold is on.
pub place_hold-IsLinked :
    (s : Store) (params : AcquireParams) (expires_at : ℕ) {u : InventoryUnit}
    → IsLinked s
    → s.units.row params.unit_id ≡ some u
    → ((id : ℕ) (hold : UnitHold)
        → s.holds.row id ≡ some hold
        → is_active_on params.unit_id hold ≡ false)
    → IsLinked (place_hold params expires_at s)
unfolding place_hold
place_hold-IsLinked s params expires_at linked row inactive id h e n =
    ground (arith, linked id h, inactive id h)
