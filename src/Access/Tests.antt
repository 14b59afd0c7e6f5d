-- ===== src/Access/Tests.antt =====
-- Associate 7 stands above 8, and 8 above 9; associate 6 stands apart.
use desire_mlm_project.Base.{ℕ, ◌≡◌, refl, List, [], ◌∷◌}
use desire_mlm_project.Receipts.Store.{HierarchyPath}
use desire_mlm_project.Receipts.Verify.{is_in_scope}
use desire_mlm_project.Access.{
  own_and_downline, includes, get_accessible_associate_ids, resolve_accessible_associate_ids,
}
use desire_mlm_project.Access.Refines.{get_accessible_associate_ids-refines}

abbrev row : ℕ → List ℕ → HierarchyPath
row id path = record { associate_id = id; path = path }

abbrev rows : List HierarchyPath
rows = row 7 [] ∷ row 8 (7 ∷ []) ∷ row 9 (7 ∷ 8 ∷ []) ∷ row 6 [] ∷ []

-- Associate 8 sees itself and 9.
accessible_lem :
    (get_accessible_associate_ids 8 own_and_downline rows ≡ 8 ∷ 9 ∷ [])
    × (resolve_accessible_associate_ids 8 own_and_downline rows ≡ 8 ∷ 9 ∷ [])
unfolding get_accessible_associate_ids resolve_accessible_associate_ids is_in_scope
accessible_lem = (refl, refl)

get_accessible_associate_ids-refines_example :
    includes 9 (get_accessible_associate_ids 8 own_and_downline rows)
    ≡ includes 9 (resolve_accessible_associate_ids 8 own_and_downline rows)
get_accessible_associate_ids-refines_example =
    get_accessible_associate_ids-refines 8 own_and_downline rows 9
      (λ h. h, (λ h. h, (λ h. refl, (λ h. h, tt))))
