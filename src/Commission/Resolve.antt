-- ===== src/Commission/Resolve.antt =====
-- packages/commission/src/resolve.ts: what was in force on a date.
pub mod Reproducible
use desire_mlm_project.Base.{
  ℕ, zero, suc, ◌+◌, Bool, true, ◌&&◌, Option, none, some, List, [], ◌∷◌, ltb, leb, find,
}
use desire_mlm_project.Commission.Types.{
  GradeAssignmentRecord, HierarchyAssignmentRecord, AssociateSnapshot, OrgSnapshot,
  ResolvedUplineNode,
}

-- `asOfDate < validTo`, or no end
abbrev pub is_open : ℕ → Option ℕ → Bool
is_open as_of none = true
is_open as_of (some valid_to) = ltb as_of valid_to

abbrev pub is_in_force : ℕ → Option ℕ → ℕ → Bool
is_in_force valid_from valid_to as_of = leb valid_from as_of && is_open as_of valid_to

unfoldable pub grade_as_of : List GradeAssignmentRecord → ℕ → Option GradeAssignmentRecord
grade_as_of history as_of = find (λ g. is_in_force g.valid_from g.valid_to as_of) history

-- `map.get(id) ?? []`
abbrev pub or_nil : {A : Type 0} → Option (List A) → List A
or_nil none = []
or_nil (some xs) = xs

-- `inForce?.parentAssociateId ?? null`
abbrev pub parent_of : Option HierarchyAssignmentRecord → Option ℕ
parent_of none = none
parent_of (some h) = h.parent_associate_id

abbrev pub parent_as_of : OrgSnapshot → ℕ → ℕ → Option ℕ
parent_as_of org as_of id =
    parent_of
      (find (λ h. is_in_force h.valid_from h.valid_to as_of) (or_nil (org.hierarchy_history id)))

abbrev make_node :
    ℕ → ℕ → Option GradeAssignmentRecord → Option AssociateSnapshot → Option ResolvedUplineNode
make_node level id (some g) (some info) = some (record {
  level = level;
  associate_id = id;
  code = info.code;
  grade_code = g.grade_code;
  grade_rank = g.grade_rank;
  status = info.status;
})
make_node level id _ _ = none

abbrev pub node_of : OrgSnapshot → ℕ → ℕ → Option ℕ → Option ResolvedUplineNode
node_of org as_of level none = none
node_of org as_of level (some parent) =
    make_node level parent (grade_as_of (or_nil (org.grade_history parent)) as_of)
      (org.associates parent)

-- The ancestor of `id` for one round of the loop; `none` is `break`.
abbrev pub next_node : OrgSnapshot → ℕ → ℕ → ℕ → Option ResolvedUplineNode
next_node org as_of level id = node_of org as_of level (parent_as_of org as_of id)

abbrev pub extend :
    Option ResolvedUplineNode → (ℕ → List ResolvedUplineNode) → List ResolvedUplineNode
extend none rest = []
extend (some node) rest = node ∷ rest node.associate_id

-- The loop of `uplineChainAsOf` from `level` on, with `left` rounds to go.
unfoldable pub walk : OrgSnapshot → ℕ → (left level id : ℕ) → List ResolvedUplineNode
walk org as_of zero level id = []
walk org as_of (suc left) level id =
    extend (next_node org as_of level id) (walk org as_of left (level + 1))

unfoldable pub upline_chain_as_of : ℕ → ℕ → ℕ → OrgSnapshot → List ResolvedUplineNode
upline_chain_as_of seller as_of max_level org = walk org as_of max_level 1 seller
