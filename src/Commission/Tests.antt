-- ===== src/Commission/Tests.antt =====
-- The commission engine on a small organisation: seller 1 under 2, 2 under 3; associate 2 is on leave.
use mathlib.Core.List.{Memᴰ}
use desire_mlm_project.Base.{
  ℕ, ◌≡◌, refl, ◌⊎◌, Bool, true, false, none, some, List, [], ◌∷◌, arith, All, ok, err, Result,
  ◌==◌,
}
use desire_mlm_project.Decimal.{◌≼◌}
use desire_mlm_project.Paise.{ℤ, pos, paise_decimal, paise_exact}
use desire_mlm_project.Commission.Types.{
  pct_of_base, roll_up, active, other_status, LevelRate, SchemeConfig, GradeAssignmentRecord,
  HierarchyAssignmentRecord, AssociateSnapshot, OrgSnapshot, AccrualInput, AccrualResult,
  ReleaseScheduleSlab, ReleaseComputationInput, ClawbackInput,
}
use desire_mlm_project.Commission.Resolve.{grade_as_of, walk, upline_chain_as_of}
use desire_mlm_project.Commission.Resolve.Reproducible.{IsLater}
use desire_mlm_project.Commission.Entries.{
  round2, apply_grade_rate, self_entry, override_entry, override_amount, Frame,
}
use desire_mlm_project.Commission.Accrue.{
  is_eligible, place, add_level, add_levels, sum_gross, ceiling, frame, accrue,
}
use desire_mlm_project.Commission.Accrue.Reproducible.{accrue-IsLater}
use desire_mlm_project.Commission.Accrue.Conservation.{offered, accrue-conserves}
use desire_mlm_project.Commission.Accrue.Recipients.{Earned, accrue-Earned}
use desire_mlm_project.Commission.Release.{
  max_fired, has_fired, resolve_milestone_cumulative_pct, release_target, compute_release,
  compute_clawback,
}
use desire_mlm_project.Commission.Release.Laws.{
  released, compute_release_lem, compute_clawback_lem, resolve_milestone_lem,
}

abbrev grade : ℕ → List GradeAssignmentRecord
grade code = record { grade_code = code; grade_rank = code; valid_from = 100; valid_to = none } ∷ []

abbrev below : ℕ → List HierarchyAssignmentRecord
below parent = record { parent_associate_id = some parent; valid_from = 100; valid_to = none } ∷ []

abbrev info : ℕ → AssociateSnapshot
info id = record {
  associate_id = id;
  code = id;
  status = elim (id == 2) [ true ↦ other_status 0 | false ↦ active ];
}

abbrev org : OrgSnapshot
org = record {
  hierarchy_history = λ id. elim (id == 1) [
    | true ↦ some (below 2)
    | false ↦ elim (id == 2) [ true ↦ some (below 3) | false ↦ none ]
  ];
  grade_history = λ id. some (grade id);
  associates = λ id. some (info id);
}

-- The seller is promoted on day 300: the row that was open is closed, and a new one begins.
abbrev promoted : OrgSnapshot
promoted = record org {
  grade_history = λ id. elim (id == 1) [
    | true ↦ some (
        record { grade_code = 1; grade_rank = 1; valid_from = 100; valid_to = some 300 }
        ∷ record { grade_code = 9; grade_rank = 9; valid_from = 300; valid_to = none }
        ∷ [])
    | false ↦ some (grade id)
  ];
}

abbrev level : ℕ → ℤ → LevelRate ℤ
level n pct = record { level = n; pct_of_seller_commission = pct }

-- 1.5% for the seller, 10% of that for the first level and 5% for the second
abbrev scheme : SchemeConfig ℤ
scheme = record {
  scheme_id = 7;
  scheme_version = 1;
  max_level = 5;
  compression_mode = roll_up;
  max_total_pct = pos 500;
  grade_rates = record { grade_code = 1; rate_type = pct_of_base; rate_value = pos 150 } ∷ [];
  level_rates = level 1 (pos 1000) ∷ level 2 (pos 500) ∷ level 3 (pos 500) ∷ [];
  min_grade_rank = some 1;
}

abbrev input : AccrualInput ℤ
input = record {
  booking_id = 42;
  booking_date = 200;
  commissionable_value = pos 100_000_000;
  saleable_area_at_booking = pos 150_000;
  scheme = scheme;
  seller_associate_id = 1;
  computed_at = 201;
}

abbrev value_of : {E A : Type 0} → Result E A → A → A
value_of (ok a) b = a
value_of (err e) b = b

abbrev no_result : AccrualResult ℤ
no_result = record { entries = []; breakage = pos 0 }

abbrev result : AccrualResult ℤ
result = value_of (accrue input org) no_result

accrue-input : accrue input org ≡ ok result
unfolding accrue frame grade_as_of upline_chain_as_of walk add_levels add_level place is_eligible
    sum_gross ceiling self_entry override_entry override_amount round2 apply_grade_rate
accrue-input = refl

-- 15,000.00 for the seller; associate 3 has the tenth that rolls up past associate 2, and a twentieth.
sum_gross-input : sum_gross (pos 0) result.entries ≡ pos 1_725_000
unfolding accrue frame grade_as_of upline_chain_as_of walk add_levels add_level place is_eligible
    sum_gross ceiling self_entry override_entry override_amount round2 apply_grade_rate
sum_gross-input = refl

accrue-conserves_example :
    (f : Frame ℤ) × (frame input org ≡ ok f)
    × (paise_decimal.plus (sum_gross (pos 0) result.entries) result.breakage
        ≡ paise_decimal.plus f.self_amt (offered f scheme.level_rates))
accrue-conserves_example = accrue-conserves input org accrue-input

accrue-Earned_example :
    (f : Frame ℤ) × (frame input org ≡ ok f) × All (Earned f scheme.level_rates) result.entries
accrue-Earned_example = accrue-Earned input org accrue-input

org-promoted : IsLater 200 org promoted
org-promoted = record {
  grades_evolve = λ id. ground arith;
  hierarchy_evolves = λ id. ground arith;
  associates_stand = λ id. refl;
}

accrue-IsLater_example : accrue input promoted ≡ accrue input org
accrue-IsLater_example = accrue-IsLater input org-promoted

abbrev release : ReleaseComputationInput ℤ
release = record {
  entry_gross_amount = pos 150_000;
  entry_already_released = pos 30_000;
  cumulative_release_pct = pos 5000;
}

compute_release-release : compute_release release ≡ pos 45_000
unfolding compute_release release_target round2
compute_release-release = refl

compute_release_lem_example :
    (pos 0 ≼ compute_release release)
    × (pos 30_000 ≼ released release)
    × (release_target release ≼ released release)
    × ((released release ≡ release_target release) ⊎ (released release ≡ pos 30_000))
    × (compute_release (record release { entry_already_released = released release }) ≡ pos 0)
compute_release_lem_example = compute_release_lem release

abbrev clawback : ClawbackInput ℤ
clawback = record { released_total = pos 90_000; beneficiary_pending_payable = pos 20_000 }

compute_clawback_lem_example :
    let r = compute_clawback clawback in
    (paise_decimal.plus r.contra_amount
        (paise_decimal.plus r.netted_against_pending r.recovery_amount)
      ≡ pos 0)
    × (r.netted_against_pending ≼ pos 20_000)
    × (pos 0 ≼ r.recovery_amount)
    × (pos 0 ≼ pos 20_000 → pos 0 ≼ pos 90_000 → pos 0 ≼ r.netted_against_pending)
compute_clawback_lem_example = compute_clawback_lem clawback

abbrev slab : ℕ → ℤ → ReleaseScheduleSlab ℤ
slab trigger pct = record {
  sequence = trigger;
  trigger_type = 0;
  trigger_ref = some trigger;
  release_pct = pct;
}

abbrev slabs : List (ReleaseScheduleSlab ℤ)
slabs = slab 1 (pos 3000) ∷ slab 2 (pos 6000) ∷ slab 3 (pos 10_000) ∷ []

abbrev first_two : ℕ → Bool
first_two n = elim (n == 3) [ true ↦ false | false ↦ true ]

slabs-first_two : resolve_milestone_cumulative_pct slabs first_two ≡ pos 6000
unfolding resolve_milestone_cumulative_pct max_fired
slabs-first_two = refl

resolve_milestone_lem_example :
    let p = resolve_milestone_cumulative_pct slabs first_two in
    (pos 0 ≼ p)
    × All (λ s. has_fired first_two s ≡ true → s.release_pct ≼ p) slabs
    × ((p ≡ pos 0)
        ⊎ ((s : ReleaseScheduleSlab ℤ) × Memᴰ s slabs
            × (has_fired first_two s ≡ true)
            × (p ≡ s.release_pct)))
resolve_milestone_lem_example = resolve_milestone_lem slabs first_two
