-- ===== src/Access.antt =====
-- packages/services/src/rbac.ts: which associates' rows a caller sees. A path is the list of the associates
-- above one, the topmost first; the rows are the current placements.
pub mod Refines
mod Tests
use desire_mlm_project.Base.{
  ℕ, Bool, true, false, ◌&&◌, Option, none, some, List, [], ◌∷◌, ◌++◌, ◌==◌, any, filter, find, map,
  if◌then◌else◌,
}
use desire_mlm_project.Receipts.Store.{HierarchyPath}
use desire_mlm_project.Receipts.Verify.{is_in_scope}

pub data ScopeMode : Type 0 where
  own own_and_downline : ScopeMode

abbrev pub id_of : HierarchyPath → ℕ
id_of row = row.associate_id

-- `ids.includes`
abbrev pub includes : ℕ → List ℕ → Bool
includes k = any λ id. id == k

abbrev pub with_actor : ℕ → List ℕ → List ℕ
with_actor actor ids = if includes actor ids then ids else actor ∷ ids

-- The pure resolver, over all rows.
unfoldable pub resolve_accessible_associate_ids :
    (actor : ℕ) → ScopeMode → List HierarchyPath → List ℕ
unfolding is_in_scope
resolve_accessible_associate_ids actor own rows = actor ∷ []
resolve_accessible_associate_ids actor own_and_downline rows =
    with_actor actor (map id_of (filter (is_in_scope actor) rows))

-- `path: { startsWith: … }`
abbrev pub starts_with : List ℕ → List ℕ → Bool
starts_with [] path = true
starts_with (id ∷ ids) [] = false
starts_with (id ∷ ids) (k ∷ path) = id == k && starts_with ids path

abbrev pub is_placed : ℕ → HierarchyPath → Bool
is_placed actor row = row.associate_id == actor

abbrev pub is_below : List ℕ → HierarchyPath → Bool
is_below prefix row = starts_with prefix row.path

abbrev pub descendants : ℕ → List HierarchyPath → Option HierarchyPath → List ℕ
descendants actor rows none = actor ∷ []
descendants actor rows (some placement) =
    actor ∷ map id_of (filter (is_below (placement.path ++ (actor ∷ []))) rows)

-- The two indexed queries.
unfoldable pub get_accessible_associate_ids : (actor : ℕ) → ScopeMode → List HierarchyPath → List ℕ
get_accessible_associate_ids actor own rows = actor ∷ []
get_accessible_associate_ids actor own_and_downline rows =
    descendants actor rows (find (is_placed actor) rows)
