-- ===== src/Inventory/HoldExpiry.antt =====
-- packages/services/src/holds.ts: when a hold has run out, and the expiry sweep.
use desire_mlm_project.Base.{
  ℕ, zero, suc, Bool, true, false, not, ◌&&◌, Option, none, some, List, [], ◌∷◌, ◌++◌, ltb, leb,
  ◌==◌, if◌then◌else◌,
}
use desire_mlm_project.Table.{update, select}
use desire_mlm_project.Inventory.Transitions.{UnitStatus, available, held, is_status}
use desire_mlm_project.Inventory.Store.{
  ReleaseReason, expired, InventoryUnit, UnitHold, HistoryReason, expired_on_acquire,
  expired_by_sweep, Store, is_null,
}

-- Lazy expiry

abbrev pub is_hold_live : UnitHold → ℕ → Bool
is_hold_live hold now = is_null hold.released_at && ltb now hold.expires_at

-- `!hold || !isHoldLive(hold, now)`
abbrev pub is_gone : Option UnitHold → ℕ → Bool
is_gone none now = true
is_gone (some hold) now = not (is_hold_live hold now)

unfoldable pub effective_unit_status : UnitStatus → Option UnitHold → ℕ → UnitStatus
effective_unit_status status current_hold now =
    if is_status status held && is_gone current_hold now then available else status

-- The updates that the operations share

abbrev pub free_unit : ℕ → Store → Store
free_unit unit_id s = record s {
  units = update unit_id (λ u. record u { status = available; current_hold_id = none }) s.units;
}

abbrev pub add_history : ℕ → UnitStatus → UnitStatus → HistoryReason → Option ℕ → Store → Store
add_history unit_id from to reason actor_id s = record s {
  history =
      s.history
      ++ (record {
        unit_id = unit_id;
        from_status = from;
        to_status = to;
        reason = reason;
        actor_id = actor_id;
      }
          ∷ []);
}

abbrev pub mark_released : ℕ → ReleaseReason → Option ℕ → UnitHold → UnitHold
mark_released now reason by hold = record hold {
  released_at = some now;
  release_reason = some reason;
  released_by_id = by;
}

abbrev pub mark_expired : ℕ → UnitHold → UnitHold
mark_expired now hold = record hold { released_at = some now; release_reason = some expired }

-- Step 2 under the lock: a hold that has expired is released, and its unit freed.
abbrev pub free_lazily : ℕ → ℕ → ℕ → Store → Store
free_lazily now unit_id hold_id s = add_history unit_id held available expired_on_acquire none (
    free_unit unit_id (record s {
      holds =
          update hold_id (λ hold. if is_null hold.released_at then mark_expired now hold else hold)
            s.holds;
    }))

abbrev pub pointed_expiry : ℕ → ℕ → Option ℕ → Store → Store × UnitStatus
pointed_expiry now unit_id none s = (s, held)
pointed_expiry now unit_id (some hold_id) s =
    if is_gone (s.holds.row hold_id) now
    then (free_lazily now unit_id hold_id s, available)
    else (s, held)

unfoldable pub lazy_expiry : ℕ → ℕ → InventoryUnit → Store → Store × UnitStatus
lazy_expiry now unit_id u s =
    if is_status u.status held
    then pointed_expiry now unit_id u.current_hold_id s
    else (s, u.status)

-- The expiry sweep

-- `findMany({ where: { releasedAt: null, expiresAt: { lte: now } } })`
abbrev pub is_stale : ℕ → UnitHold → Bool
is_stale now hold = is_null hold.released_at && leb hold.expires_at now

abbrev pub is_id : ℕ → Option ℕ → Bool
is_id id none = false
is_id id (some other) = other == id

-- Whether the unit is freed: it points at the hold (`count === 1`), or it still sits in HELD.
abbrev pub frees : ℕ → Option InventoryUnit → Bool
frees hold_id none = false
frees hold_id (some u) = if is_id hold_id u.current_hold_id then true else is_status u.status held

-- `fresh`: the row is there and not released
abbrev pub is_unreleased : Option UnitHold → Bool
is_unreleased none = false
is_unreleased (some hold) = is_null hold.released_at

-- The transaction for one hold, on the store and what has been reported.
unfoldable pub expire_one :
    ℕ → ℕ × UnitHold → Store × List (ℕ × UnitHold) → Store × List (ℕ × UnitHold)
expire_one now (hold_id, hold) (s, released) =
    if is_unreleased (s.holds.row hold_id)
    then (let t = record s { holds = update hold_id (mark_expired now) s.holds } in
        if frees hold_id (s.units.row hold.unit_id)
        then (
          add_history hold.unit_id held available expired_by_sweep none (free_unit hold.unit_id t),
          released ++ ((hold_id, hold) ∷ []),
        )
        else (t, released))
    else (s, released)

unfoldable pub expire_each :
    ℕ → List (ℕ × UnitHold) → Store × List (ℕ × UnitHold) → Store × List (ℕ × UnitHold)
expire_each now [] acc = acc
expire_each now (h ∷ hs) acc = expire_each now hs (expire_one now h acc)

abbrev pub take : {A : Type 0} → ℕ → List A → List A
take zero xs = []
take (suc n) [] = []
take (suc n) (x ∷ xs) = x ∷ take n xs

-- The new store and the holds reported as released; `limit` is 500 where none is given.
unfoldable pub expire_stale_holds : Store → ℕ → ℕ → Store × List (ℕ × UnitHold)
unfolding expire_each expire_one
expire_stale_holds s now limit =
    expire_each now (take limit (select (is_stale now) s.holds)) (s, [])
