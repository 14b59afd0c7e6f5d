-- ===== src/Inventory/Tests.antt =====
-- The holds of one unit: unit 1 of project 5, and associate 8, who may hold two units at a time.
use desire_mlm_project.Base.{
  ℕ, ◌+◌, ◌*◌, ◌≡◌, ◌≢◌, refl, ◌<◌, true, false, Option, none, some, List, [], ◌∷◌, ◌++◌, map,
  arith, inr, ok, err, Result, ◌==◌, length, if◌then◌else◌, ltb,
}
use desire_mlm_project.Table.{count}
use desire_mlm_project.Inventory.Transitions.{
  available, held, is_valid_transition, assert_valid_transition,
}
use desire_mlm_project.Inventory.Store.{
  InventoryUnit, UnitHold, Store, Project, Catalogue, HoldError, unit_not_available, hold_not_found,
  note_required, AuditContext,
}
use desire_mlm_project.Inventory.HoldExpiry.{
  is_gone, lazy_expiry, expire_one, expire_each, expire_stale_holds,
}
use desire_mlm_project.Inventory.Holds.{
  AcquireParams, acquire_hold, acquire_checked, place_hold, current_holder, current_holder_by_unit,
  assert_quota_available, is_live_of, or_zero, new_hold, by_associate, release_hold, extend_hold,
  read_release, write_hold_release, read_extension, write_extension, lacks_note,
  ManualReleaseReason,
}
use desire_mlm_project.Inventory.Holds.Invariant.{IsLinked, held_by}
use desire_mlm_project.Inventory.Holds.Acquire.{
  acquire_hold-IsLinked, acquire_hold_lem, acquire_hold-once,
}
use desire_mlm_project.Inventory.Holds.Release.{release_hold_lem}
use desire_mlm_project.Inventory.Holds.Lapsed.{acquire_hold-IsFree}
use desire_mlm_project.Inventory.Holds.Races.{releases_race, extensions_race}
use desire_mlm_project.Inventory.Holds.Reachable.{
  Reaches, acquires, extends, sweeps, stays, goes_on, reached_holds_once,
}
use desire_mlm_project.Inventory.Holds.Sweep.{expire_stale_holds_twice}
use desire_mlm_project.Inventory.Holds.SweepEffects.{expire_stale_holds-history, sweep_row}

abbrev catalogue : Catalogue
catalogue = record {
  projects = λ id.
      some (record { hold_ttl_minutes = 60; hold_extension_minutes = 30; max_hold_extensions = 1 });
  price_lists = record { project_id = 5; is_active = true; valid_from = 0; valid_to = none } ∷ [];
  grade_quota = λ id. some 2;
}

abbrev free : InventoryUnit
free = record { status = available; project_id = 5; current_hold_id = none }

abbrev start : Store
start = record {
  units = record { ids = 1 ∷ []; row = λ k. elim (k == 1) [ true ↦ some free | false ↦ none ] };
  holds = record { ids = []; row = λ k. none };
  history = [];
  audit_log = [];
}

abbrev actor : AuditContext
actor = record { org_id = 1; actor_id = some 8 }

abbrev params : ℕ → ℕ → ℕ → AcquireParams
params associate now id = record {
  unit_id = 1;
  associate_id = associate;
  lead_id = none;
  audit = actor;
  now = now;
  new_hold_id = id;
}

abbrev after_of : {A : Type 0} → Result HoldError (Store × A) → Store
after_of (ok (s, _)) = s
after_of (err e) = start

-- Held by associate 8 until the end of the hour.
abbrev taken : Store
taken = after_of (acquire_hold catalogue start (params 8 1000 77))

acquire_hold-start : acquire_hold catalogue start (params 8 1000 77) ≡ ok (taken, 3_601_000)
unfolding acquire_hold acquire_checked lazy_expiry assert_valid_transition is_valid_transition
    assert_quota_available place_hold current_holder current_holder_by_unit
acquire_hold-start = refl

start-IsLinked : IsLinked start
start-IsLinked id hold found unreleased = cc

taken-IsLinked : IsLinked taken
taken-IsLinked =
    acquire_hold-IsLinked catalogue start (params 8 1000 77) start-IsLinked acquire_hold-start

acquire_hold_lem_example :
    (u : InventoryUnit) × (project : Project) × (start.units.row 1 ≡ some u)
    × (catalogue.projects u.project_id ≡ some project)
    × (3_601_000 ≡ 1000 + project.hold_ttl_minutes * 60_000)
    × (held_by 77 (taken.units.row 1) ≡ true)
    × (taken.holds.row 77 ≡ some (new_hold (params 8 1000 77) 3_601_000))
    × ((k : ℕ) → k ≢ 1 → taken.units.row k ≡ start.units.row k)
    × (count (is_live_of 8 1000) (lazy_expiry 1000 1 u start).0.holds
        < or_zero (catalogue.grade_quota 8))
acquire_hold_lem_example = acquire_hold_lem catalogue start (params 8 1000 77) acquire_hold-start

-- Associate 9 comes second, ten minutes later.
acquire_hold-once_example :
    acquire_hold catalogue taken (params 9 601_000 78) ≡ err (unit_not_available held (some 8))
acquire_hold-once_example =
    acquire_hold-once catalogue start (params 8 1000 77) (params 9 601_000 78) acquire_hold-start
      refl (omega arith)

-- When the hold has run out, an acquire by associate 9 takes the unit over.
acquire_hold-expired :
    held_by 78 ((after_of (acquire_hold catalogue taken (params 9 3_601_000 78))).units.row 1)
    ≡ true
unfolding acquire_hold acquire_checked lazy_expiry assert_valid_transition is_valid_transition
    assert_quota_available place_hold current_holder current_holder_by_unit
acquire_hold-expired = refl

abbrev store_of : Result HoldError Store → Store
store_of (ok s) = s
store_of (err e) = start

abbrev released : Store
released = store_of (release_hold taken 77 by_associate none actor 2000)

release_hold-taken : release_hold taken 77 by_associate none actor 2000 ≡ ok released
unfolding release_hold read_release write_hold_release acquire_hold acquire_checked lazy_expiry
    assert_valid_transition is_valid_transition assert_quota_available place_hold current_holder
    current_holder_by_unit
release_hold-taken = refl

release_hold_lem_example :
    (hold : UnitHold) × (u : InventoryUnit) × (taken.holds.row 77 ≡ some hold)
    × (taken.units.row hold.unit_id ≡ some u)
    × (released.units.row hold.unit_id
        ≡ some (record u { status = available; current_hold_id = none }))
    × ((k : ℕ) → k ≢ hold.unit_id → released.units.row k ≡ taken.units.row k)
    × ((k : ℕ) → k ≢ 77 → released.holds.row k ≡ taken.holds.row k)
    × ((reason' : ManualReleaseReason) (text' : Option ℕ) (audit' : AuditContext) (later : ℕ)
        → release_hold released 77 reason' text' audit' later
          ≡ err (if lacks_note reason' text' then note_required else hold_not_found))
release_hold_lem_example =
    release_hold_lem taken 77 by_associate none actor 2000 taken-IsLinked release_hold-taken

abbrev held_77 : UnitHold
held_77 = new_hold (params 8 1000 77) 3_601_000

abbrev extended : Store
extended = after_of (extend_hold catalogue taken 77 actor 2000)

extend_hold-taken : extend_hold catalogue taken 77 actor 2000 ≡ ok (extended, 5_401_000)
unfolding extend_hold read_extension write_extension acquire_hold acquire_checked lazy_expiry
    assert_valid_transition is_valid_transition assert_quota_available place_hold current_holder
    current_holder_by_unit
extend_hold-taken = refl

read_extension-taken :
    (now : ℕ)
    → ltb now 3_601_000 ≡ true
    → read_extension catalogue taken 77 now ≡ ok (held_77, 5_401_000)
unfolding read_extension acquire_hold acquire_checked lazy_expiry assert_valid_transition
    is_valid_transition assert_quota_available place_hold current_holder current_holder_by_unit
read_extension-taken now live = rw live refl

taken-unit : taken.units.row 1 ≡ some (record free { status = held; current_hold_id = some 77 })
unfolding acquire_hold acquire_checked lazy_expiry assert_valid_transition is_valid_transition
    assert_quota_available place_hold current_holder current_holder_by_unit
taken-unit = refl

taken-hold : taken.holds.row 77 ≡ some held_77
unfolding acquire_hold acquire_checked lazy_expiry assert_valid_transition is_valid_transition
    assert_quota_available place_hold current_holder current_holder_by_unit
taken-hold = refl

-- Two extensions, of one and of two seconds after the acquire, where the project allows one.
extensions_race_example :
    (e : UnitHold) × ((write_extension 77 held_77 5_401_000 actor
          (write_extension 77 held_77 5_401_000 actor taken)).holds.row
        77
      ≡ some e)
    × (1 < e.extension_count)
    × (e.expires_at ≡ 5_401_000)
extensions_race_example =
    extensions_race catalogue taken 77 2000 3000 5_401_000 5_401_000 held_77 held_77
      (record free { status = held; current_hold_id = some 77 })
      (record { hold_ttl_minutes = 60; hold_extension_minutes = 30; max_hold_extensions = 1 }) actor
      actor (read_extension-taken 2000 refl) (read_extension-taken 3000 refl) taken-unit refl refl

-- The sweep an hour later.
abbrev swept : Store × List (ℕ × UnitHold)
swept = expire_stale_holds taken 3_700_000 500

swept-one : length swept.1 ≡ 1
unfolding expire_stale_holds expire_each expire_one acquire_hold acquire_checked lazy_expiry
    assert_valid_transition is_valid_transition assert_quota_available place_hold current_holder
    current_holder_by_unit
swept-one = refl

expire_stale_holds_twice_example : expire_stale_holds swept.0 3_700_000 500 ≡ (swept.0, [])
unfolding acquire_hold acquire_checked lazy_expiry assert_valid_transition is_valid_transition
    assert_quota_available place_hold current_holder current_holder_by_unit
expire_stale_holds_twice_example = expire_stale_holds_twice taken 3_700_000 500 500 (omega arith)

expire_stale_holds-history_example : swept.0.history ≡ taken.history ++ map sweep_row swept.1
expire_stale_holds-history_example = expire_stale_holds-history taken 3_700_000 500

-- The hold is acquired, extended and swept an hour after that.
abbrev last : Store
last = (expire_one 9_700_000 (77, held_77) (write_extension 77 held_77 5_401_000 actor taken, [])).0

on_unit_1 :
    (row : UnitHold)
    → (write_extension 77 held_77 5_401_000 actor taken).holds.row 77 ≡ some row
    → row.unit_id ≡ 1
unfolding write_extension
on_unit_1 row found = ground (arith, taken-hold)

reached_last : Reaches catalogue start last
reached_last =
    goes_on start (write_extension 77 held_77 5_401_000 actor taken) last
      (goes_on start taken (write_extension 77 held_77 5_401_000 actor taken)
        (goes_on start start taken (stays start)
          (acquires start taken (params 8 1000 77) 3_601_000 acquire_hold-start))
        (extends taken taken 77 held_77 actor 2000 5_401_000 (read_extension-taken 2000 refl)))
      (sweeps (write_extension 77 held_77 5_401_000 actor taken) 9_700_000 (77, held_77) []
        on_unit_1)

reached_holds_once_example :
    IsLinked last
    × ((a b : ℕ) (hold other : UnitHold)
        → last.holds.row a ≡ some hold
        → last.holds.row b ≡ some other
        → hold.released_at ≡ none
        → other.released_at ≡ none
        → hold.unit_id ≡ other.unit_id
        → a ≡ b)
reached_holds_once_example = reached_holds_once catalogue start last start-IsLinked reached_last

-- Associate 8 releases twice at once, and associate 9 acquires the unit between the two writes.
abbrev freed : Store
freed = write_hold_release 77 held_77 by_associate none actor 2000 taken

abbrev retaken : Store
retaken = after_of (acquire_hold catalogue freed (params 9 2500 78))

read_release-taken : read_release taken 77 by_associate none ≡ ok held_77
unfolding read_release acquire_hold acquire_checked lazy_expiry assert_valid_transition
    is_valid_transition assert_quota_available place_hold current_holder current_holder_by_unit
read_release-taken = refl

acquire_hold-freed : acquire_hold catalogue freed (params 9 2500 78) ≡ ok (retaken, 3_602_500)
unfolding write_hold_release acquire_hold acquire_checked lazy_expiry assert_valid_transition
    is_valid_transition assert_quota_available place_hold current_holder current_holder_by_unit
acquire_hold-freed = refl

releases_race_example :
    (u : InventoryUnit) × ((write_hold_release 77 held_77 by_associate none actor 3000
          retaken).holds.row
        78
      ≡ some (new_hold (params 9 2500 78) 3_602_500))
    × ((write_hold_release 77 held_77 by_associate none actor 3000 retaken).units.row 1
        ≡ some (record u { status = available; current_hold_id = none }))
releases_race_example =
    releases_race catalogue taken 77 by_associate by_associate none none actor actor 2000 3000
      3_602_500 held_77 held_77 (params 9 2500 78) read_release-taken read_release-taken refl refl
      acquire_hold-freed

-- The hour is over and no sweep has come: associate 9 can have the unit.
taken-gone : is_gone (taken.holds.row 77) 3_601_000 ≡ true
taken-gone = rw taken-hold refl

taken-quota : count (is_live_of 9 3_601_000) taken.holds < 2
unfolding acquire_hold acquire_checked lazy_expiry assert_valid_transition is_valid_transition
    assert_quota_available place_hold current_holder current_holder_by_unit
taken-quota = omega arith

acquire_hold-IsFree_example :
    (after : Store) × (acquire_hold catalogue taken (params 9 3_601_000 78) ≡ ok (after, 7_201_000))
acquire_hold-IsFree_example =
    acquire_hold-IsFree catalogue taken (params 9 3_601_000 78) taken-IsLinked taken-unit
      (inr (77, refl, refl, taken-gone)) refl refl taken-quota
