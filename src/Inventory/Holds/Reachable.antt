-- ===== src/Inventory/Holds/Reachable.antt =====
-- packages/services/src/holds.ts: every sequence of acquires, releases, extensions and the sweep's
-- transactions, in which extensions and sweeps may have read the database at any time before.
use mathlib.Core.Path.{subst}
use desire_mlm_project.Base.{ℕ, ◌≡◌, sym, true, Option, none, some, List, ok}
use desire_mlm_project.Inventory.Store.{UnitHold, Store, Catalogue, AuditContext}
use desire_mlm_project.Inventory.Holds.{
  AcquireParams, ManualReleaseReason, acquire_hold, release_hold, read_extension, write_extension,
}
use desire_mlm_project.Inventory.HoldExpiry.{expire_one}
use desire_mlm_project.Inventory.Holds.Invariant.{IsLinked, held_by, held_by_unique}
use desire_mlm_project.Inventory.Holds.Acquire.{acquire_hold-IsLinked}
use desire_mlm_project.Inventory.Holds.Release.{release_hold-IsLinked, write_extension-IsLinked}
use desire_mlm_project.Inventory.Holds.SweepEffects.{Matches, expire_one-IsLinked}

-- One commit. An acquire and the transaction of the sweep for one hold take the lock on the unit before
-- they read what they decide on; an extension writes what it read in any store. A release is one step
-- only where nothing comes between its read and its lock (Races tells what happens else).
pub data HoldStep (c : Catalogue) : Store → Store → Type 0 where
  acquires :
      (s after : Store) (params : AcquireParams) (expires_at : ℕ)
      → acquire_hold c s params ≡ ok (after, expires_at)
      → HoldStep c s after
  releases :
      (s after : Store) (hold_id : ℕ) (reason : ManualReleaseReason) (text : Option ℕ)
      (audit : AuditContext) (now : ℕ)
      → release_hold s hold_id reason text audit now ≡ ok after
      → HoldStep c s after
  extends :
      (before s : Store) (hold_id : ℕ) (hold : UnitHold) (audit : AuditContext) (now expires_at : ℕ)
      → read_extension c before hold_id now ≡ ok (hold, expires_at)
      → HoldStep c s (write_extension hold_id hold expires_at audit s)
  -- The hold as the sweep's query saw it; its unit is the one that it is on.
  sweeps :
      (s : Store) (now : ℕ) (h : ℕ × UnitHold) (reported : List (ℕ × UnitHold))
      → Matches s h
      → HoldStep c s (expire_one now h (s, reported)).0

-- Any number of steps.
pub data Reaches (c : Catalogue) : Store → Store → Type 0 where
  stays : (s : Store) → Reaches c s s
  goes_on : (s t u : Store) → Reaches c s t → HoldStep c t u → Reaches c s u

step-IsLinked : (c : Catalogue) (s t : Store) → HoldStep c s t → IsLinked s → IsLinked t
step-IsLinked c s t (acquires _ _ params expires_at h) linked =
    acquire_hold-IsLinked c s params linked h
step-IsLinked c s t (releases _ _ hold_id reason text audit now h) linked =
    release_hold-IsLinked s hold_id reason text audit now linked h
step-IsLinked c s _ (extends before _ hold_id hold audit now expires_at h) linked =
    write_extension-IsLinked s hold_id hold expires_at audit linked
step-IsLinked c s _ (sweeps _ now h reported m) linked =
    expire_one-IsLinked now h (s, reported) linked m

reached-IsLinked : (c : Catalogue) (s t : Store) → Reaches c s t → IsLinked s → IsLinked t
reached-IsLinked c s _ (stays _) linked = linked
reached-IsLinked c s u (goes_on _ t _ before step) linked =
    step-IsLinked c t u step (reached-IsLinked c s t before linked)

-- However acquires, releases, the writes of extensions that read at any time before, and the sweep's
-- transactions follow one another from a store whose unreleased holds are linked, if nothing comes
-- between the read and the lock of a release: every unreleased hold is the one that its unit is HELD by,
-- so that no unit has two.
pub reached_holds_once :
    (c : Catalogue) (s t : Store)
    → IsLinked s
    → Reaches c s t
    → IsLinked t
      × ((a b : ℕ) (hold other : UnitHold)
          → t.holds.row a ≡ some hold
          → t.holds.row b ≡ some other
          → hold.released_at ≡ none
          → other.released_at ≡ none
          → hold.unit_id ≡ other.unit_id
          → a ≡ b)
reached_holds_once c s t linked reached =
    let linked' = reached-IsLinked c s t reached linked in
    (
      linked',
      λ a b hold other at_a at_b unreleased unreleased' same.
          held_by_unique a b (t.units.row hold.unit_id) (linked' a hold at_a unreleased) (
            subst (λ k. held_by b (t.units.row k) ≡ true) (sym same)
              (linked' b other at_b unreleased')),
    )
