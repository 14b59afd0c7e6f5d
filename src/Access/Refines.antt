-- ===== src/Access/Refines.antt =====
-- packages/services/src/rbac.ts: the indexed queries see what the pure resolver sees.
use mathlib.Core.Path.{subst}
use mathlib.Core.Bool.{true≢false}
use desire_mlm_project.Base.{
  ℕ, ◌≡◌, refl, sym, ap, ◌∙◌, Bool, true, false, Option, none, some, List, [], ◌∷◌, ◌++◌, ◌==◌,
  arith, inl, inr, Bool-cases, All, filter, find, map, if◌then◌else◌, ==-refl,
}
use desire_mlm_project.Receipts.Store.{HierarchyPath}
use desire_mlm_project.Receipts.Verify.{is_in_scope}
use desire_mlm_project.Access.{
  ScopeMode, own, own_and_downline, id_of, includes, with_actor, starts_with, is_placed, is_below,
  descendants, resolve_accessible_associate_ids, get_accessible_associate_ids,
}

-- A row that has the actor in its path has the actor's own path, and then the actor, at its start.
abbrev pub IsUnder : ℕ → Option HierarchyPath → HierarchyPath → Type 0
IsUnder actor none row = includes actor row.path ≡ false
IsUnder actor (some placement) row =
    includes actor row.path ≡ true → starts_with (placement.path ++ (actor ∷ [])) row.path ≡ true

-- The paths of the rows fit the actor's placement.
abbrev pub ArePlacedUnder : ℕ → List HierarchyPath → Type 0
ArePlacedUnder actor rows = All (IsUnder actor (find (is_placed actor) rows)) rows

starts_with-includes :
    (actor : ℕ) (before path : List ℕ)
    → starts_with (before ++ (actor ∷ [])) path ≡ true
    → includes actor path ≡ true
starts_with-includes actor [] [] h = cc
starts_with-includes actor [] (k ∷ path) h = ground arith
starts_with-includes actor (b ∷ before) [] h = cc
starts_with-includes actor (b ∷ before) (k ∷ path) h =
    ground (arith, starts_with-includes actor before path)

includes-with_actor :
    (actor k : ℕ) (ids : List ℕ)
    → includes k (with_actor actor ids) ≡ (if actor == k then true else includes k ids)
includes-with_actor actor k ids = elim (Bool-cases (includes actor ids)) [
  | inl has ↦ elim (Bool-cases (actor == k)) [
    | inl same ↦
        let equal : actor ≡ k = ground arith in
        rw (has, same) (subst (λ t. includes t ids ≡ true) equal has)
    | inr other ↦ rw (has, other) refl
  ]
  | inr lacks ↦ rw lacks refl
]

-- Two filters that agree on the rows of an associate keep it alike.
filter-agree :
    (k : ℕ) (p q : HierarchyPath → Bool) (rows : List HierarchyPath)
    → All (λ row. row.associate_id == k ≡ true → p row ≡ q row) rows
    → includes k (map id_of (filter p rows)) ≡ includes k (map id_of (filter q rows))
filter-agree k p q [] agree = refl
filter-agree k p q (row ∷ rows) (first, rest) = elim (Bool-cases (row.associate_id == k)) [
  | inl this ↦
      let same = first this in
      let later = filter-agree k p q rows rest in
      elim (Bool-cases (q row)) [
        | inl kept ↦ rw (same ∙ kept, kept, this) refl
        | inr dropped ↦ rw (same ∙ dropped, dropped) later
      ]
  | inr other ↦ let later = filter-agree k p q rows rest in ground arith
]

filter-nothing :
    (k : ℕ) (rows : List HierarchyPath)
    → includes k (map id_of (filter (λ row. false) rows)) ≡ false
filter-nothing k [] = refl
filter-nothing k (row ∷ rows) = filter-nothing k rows

-- Of a row that is not the actor's own, the query sees it exactly if the resolver does.
below_agrees :
    (actor k : ℕ) (placement row : HierarchyPath)
    → actor == k ≡ false
    → IsUnder actor (some placement) row
    → row.associate_id == k ≡ true
    → is_below (placement.path ++ (actor ∷ [])) row ≡ is_in_scope actor row
unfolding is_in_scope
below_agrees actor k placement row other under this =
    let not_own : row.associate_id == actor ≡ false = ground arith in
    elim (Bool-cases (is_below (placement.path ++ (actor ∷ [])) row)) [
      | inl below ↦
          below ∙ sym (rw not_own (starts_with-includes actor placement.path row.path below))
      | inr above ↦ elim (Bool-cases (includes actor row.path)) [
        | inl has ↦ absurd (true≢false (sym (under has) ∙ above))
        | inr lacks ↦ rw not_own (above ∙ sym lacks)
      ]
    ]

All-map :
    {P Q : HierarchyPath → Type 0} (rows : List HierarchyPath)
    → ((row : HierarchyPath) → P row → Q row)
    → All P rows
    → All Q rows
All-map [] f all = tt
All-map (row ∷ rows) f (first, rest) = (f row first, All-map rows f rest)

descendants-agree :
    (actor k : ℕ) (placement : Option HierarchyPath) (rows : List HierarchyPath)
    → actor == k ≡ false
    → All (IsUnder actor placement) rows
    → includes k (descendants actor rows placement)
      ≡ includes k (map id_of (filter (is_in_scope actor) rows))
unfolding is_in_scope
descendants-agree actor k none rows other under = rw other (
    sym (filter-nothing k rows)
    ∙ filter-agree k (λ row. false) (is_in_scope actor) rows
        (All-map rows (λ row lacks this. ground arith) under))
descendants-agree actor k (some placement) rows other under = rw other (
    filter-agree k (is_below (placement.path ++ (actor ∷ []))) (is_in_scope actor) rows
      (All-map rows (λ row. below_agrees actor k placement row other) under))

own_included :
    (actor : ℕ) (placement : Option HierarchyPath) (rows : List HierarchyPath)
    → includes actor (descendants actor rows placement) ≡ true
own_included actor none rows = rw (==-refl actor) refl
own_included actor (some placement) rows = rw (==-refl actor) refl

-- Where the paths of the rows fit the actor's placement, an associate is among those that the indexed
-- queries return exactly if the pure resolver returns it.
pub get_accessible_associate_ids-refines :
    (actor : ℕ) (mode : ScopeMode) (rows : List HierarchyPath) (k : ℕ)
    → ArePlacedUnder actor rows
    → includes k (get_accessible_associate_ids actor mode rows)
      ≡ includes k (resolve_accessible_associate_ids actor mode rows)
unfolding get_accessible_associate_ids resolve_accessible_associate_ids
get_accessible_associate_ids-refines actor own rows k under = refl
get_accessible_associate_ids-refines actor own_and_downline rows k under =
    let placement = find (is_placed actor) rows in
    let seen = map id_of (filter (is_in_scope actor) rows) in
    elim (Bool-cases (actor == k)) [
      | inl same ↦
          let equal : actor ≡ k = ground arith in
          ap (λ t. includes t (descendants actor rows placement)) (sym equal)
          ∙ own_included actor placement rows
          ∙ sym (includes-with_actor actor k seen ∙ rw same refl)
      | inr other ↦
          descendants-agree actor k placement rows other under
          ∙ sym (includes-with_actor actor k seen ∙ rw other refl)
    ]
