-- ===== src/Inventory/Holds/SweepEffects.antt =====
-- packages/services/src/holds.ts: what the expiry sweep does to the units and to the history.
use mathlib.Core.List.{append_assoc, append-nil, map-append}
use desire_mlm_project.Base.{
  ℕ, zero, suc, ◌≡◌, refl, Bool, true, Option, none, some, List, [], ◌∷◌, ◌++◌, map, arith,
  Option-cases, Bool-cases, inl, inr, ◌⊎◌, All, sym,
}
use desire_mlm_project.Table.{update, select, select_from, keep_row}
use desire_mlm_project.Inventory.Transitions.{available, held}
use desire_mlm_project.Inventory.Store.{
  InventoryUnit, UnitHold, Store, HistoryRow, expired_by_sweep, is_null,
}
use desire_mlm_project.Inventory.HoldExpiry.{
  free_unit, add_history, mark_expired, is_stale, frees, expire_one, expire_each, take,
  expire_stale_holds,
}
use desire_mlm_project.Inventory.Holds.Invariant.{IsLinked, held_by, free-IsLinked}

abbrev Sweep : Type 0
Sweep = Store × List (ℕ × UnitHold)

-- The invariant

-- A snapshot of a hold that still tells the hold's unit.
abbrev pub Matches : Store → ℕ × UnitHold → Type 0
Matches s h = (row : UnitHold) → s.holds.row h.0 ≡ some row → row.unit_id ≡ h.1.unit_id

expire_one-Matches :
    (now : ℕ) (h k : ℕ × UnitHold) (acc : Sweep)
    → Matches acc.0 k
    → Matches (expire_one now h acc).0 k
unfolding expire_one
expire_one-Matches now h k acc m row e = elim (Option-cases (acc.0.holds.row k.0)) [
  | inl missing ↦ absurd (ground arith)
  | inr (old, found) ↦ ground (arith, m old)
]

All-Matches :
    (now : ℕ) (h : ℕ × UnitHold) (acc : Sweep) (hs : List (ℕ × UnitHold))
    → All (Matches acc.0) hs
    → All (Matches (expire_one now h acc).0) hs
All-Matches now h acc [] ms = tt
All-Matches now h acc (k ∷ hs) (m, ms) =
    (expire_one-Matches now h k acc m, All-Matches now h acc hs ms)

held_by-frees : (id : ℕ) (u : Option InventoryUnit) → held_by id u ≡ true → frees id u ≡ true
held_by-frees id none h = cc
held_by-frees id (some u) h = ground arith

-- What one transaction of the sweep does to a linked store: nothing, or it releases the hold, frees its
-- unit, writes one row of history and reports the hold.
expire_one-cases :
    (now : ℕ) (h : ℕ × UnitHold) (acc : Sweep)
    → IsLinked acc.0
    → Matches acc.0 h
    → (expire_one now h acc ≡ acc)
      ⊎ ((row : UnitHold) × (acc.0.holds.row h.0 ≡ some row)
          × (row.released_at ≡ none)
          × (expire_one now h acc ≡ (
            add_history row.unit_id held available expired_by_sweep none (
                free_unit row.unit_id
                  (record (acc.0) { holds = update h.0 (mark_expired now) acc.0.holds })),
            acc.1 ++ (h ∷ []),
          )))
unfolding expire_one
expire_one-cases now h acc linked m = elim (Option-cases (acc.0.holds.row h.0)) [
  | inl missing ↦ inl (ground arith)
  | inr (row, found) ↦ elim (Bool-cases (is_null row.released_at)) [
    | inl open_row ↦
        let unreleased : row.released_at ≡ none = ground arith in
        let at = m row found in
        let freed : frees h.0 (acc.0.units.row h.1.unit_id) ≡ true =
          rw (← at)
            (held_by-frees h.0 (acc.0.units.row row.unit_id) (linked h.0 row found unreleased)) in
        inr (row, found, unreleased, rw (at, found, unreleased, freed))
    | inr released ↦ inl (ground arith)
  ]
]

pub expire_one-IsLinked :
    (now : ℕ) (h : ℕ × UnitHold) (acc : Sweep)
    → IsLinked acc.0
    → Matches acc.0 h
    → IsLinked (expire_one now h acc).0
expire_one-IsLinked now h acc linked m = elim (expire_one-cases now h acc linked m) [
  | inl same ↦ rw same linked
  | inr (row, found, unreleased, same) ↦
      rw same
        (free-IsLinked acc.0 h.0 linked (mark_expired now) (λ old. ground arith) found unreleased)
]

expire_each-IsLinked :
    (now : ℕ) (hs : List (ℕ × UnitHold)) (acc : Sweep)
    → IsLinked acc.0
    → All (Matches acc.0) hs
    → IsLinked (expire_each now hs acc).0
unfolding expire_each
expire_each-IsLinked now [] acc linked ms = linked
expire_each-IsLinked now (h ∷ hs) acc linked (m, ms) =
    expire_each-IsLinked now hs (expire_one now h acc) (expire_one-IsLinked now h acc linked m)
      (All-Matches now h acc hs ms)

keep_row-Matches :
    (s : Store) (p : UnitHold → Bool) (id : ℕ) (row : Option UnitHold) (rest : List (ℕ × UnitHold))
    → s.holds.row id ≡ row
    → All (Matches s) rest
    → All (Matches s) (keep_row p id row rest)
keep_row-Matches s p id none rest e ms = ms
keep_row-Matches s p id (some hold) rest e ms = elim (Bool-cases (p hold)) [
  | inl kept ↦ rw kept (λ row found. ground arith, ms)
  | inr left ↦ rw left ms
]

select-Matches :
    (s : Store) (p : UnitHold → Bool) (ids : List ℕ)
    → All (Matches s) (select_from p s.holds.row ids)
select-Matches s p [] = tt
select-Matches s p (id ∷ ids) =
    keep_row-Matches s p id (s.holds.row id) _ refl (select-Matches s p ids)

All-take : {A : Type 0} (P : A → Type 0) (n : ℕ) (xs : List A) → All P xs → All P (take n xs)
All-take P zero xs h = tt
All-take P (suc n) [] h = tt
All-take P (suc n) (x ∷ xs) (h, hs) = (h, All-take P n xs hs)

sweep_list-Matches :
    (s : Store) (now limit : ℕ) → All (Matches s) (take limit (select (is_stale now) s.holds))
sweep_list-Matches s now limit =
    All-take (Matches s) limit _ (select-Matches s (is_stale now) s.holds.ids)

-- The sweep keeps every unreleased hold linked to its unit.
pub expire_stale_holds-IsLinked :
    (s : Store) (now limit : ℕ) → IsLinked s → IsLinked (expire_stale_holds s now limit).0
unfolding expire_stale_holds
expire_stale_holds-IsLinked s now limit linked =
    expire_each-IsLinked now _ (s, []) linked (sweep_list-Matches s now limit)

-- The history

-- The row that the sweep writes for a hold that it reports.
abbrev pub sweep_row : ℕ × UnitHold → HistoryRow
sweep_row (_, hold) = record {
  unit_id = hold.unit_id;
  from_status = held;
  to_status = available;
  reason = expired_by_sweep;
  actor_id = none;
}

-- What the history and the report have in common.
abbrev Recorded : Store → Sweep → Type 0
Recorded s acc = acc.0.history ≡ s.history ++ map sweep_row acc.1

expire_one-Recorded :
    (now : ℕ) (s : Store) (h : ℕ × UnitHold) (acc : Sweep)
    → Recorded s acc
    → Recorded s (expire_one now h acc)
unfolding expire_one
expire_one-Recorded now s h acc e = ground (
  arith,
  append_assoc s.history (map sweep_row acc.1) (sweep_row h ∷ []),
  map-append sweep_row acc.1 (h ∷ []),
)

expire_each-Recorded :
    (now : ℕ) (s : Store) (hs : List (ℕ × UnitHold)) (acc : Sweep)
    → Recorded s acc
    → Recorded s (expire_each now hs acc)
unfolding expire_each
expire_each-Recorded now s [] acc e = e
expire_each-Recorded now s (h ∷ hs) acc e =
    expire_each-Recorded now s hs (expire_one now h acc) (expire_one-Recorded now s h acc e)

-- The sweep appends to the history one row for each hold that it reports, in that order, and no other:
-- from HELD to AVAILABLE, for the hold's unit.
pub expire_stale_holds-history :
    (s : Store) (now limit : ℕ)
    → let (after, released) = expire_stale_holds s now limit in
      after.history ≡ s.history ++ map sweep_row released
unfolding expire_stale_holds
expire_stale_holds-history s now limit =
    expire_each-Recorded now s (take limit (select (is_stale now) s.holds)) (s, [])
      (sym (append-nil _))
