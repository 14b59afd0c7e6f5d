-- ===== src/Inventory/Transitions.antt =====
-- packages/services/src/unit-transitions.ts: which status may follow which.
use desire_mlm_project.Base.{
  ℕ, Bool, true, false, ◌&&◌, List, [], ◌∷◌, ◌==◌, any, Result, throw_if, not, if◌then◌else◌,
}

pub data UnitStatus : Type 0 where
  available held booked agreement_signed registered possession blocked : UnitStatus

abbrev pub status_number : UnitStatus → ℕ
status_number available = 0
status_number held = 1
status_number booked = 2
status_number agreement_signed = 3
status_number registered = 4
status_number possession = 5
status_number blocked = 6

-- `===` on statuses
abbrev pub is_status : UnitStatus → UnitStatus → Bool
is_status a b = status_number a == status_number b

pub data InvalidTransition : Type 0 where
  invalid_transition : UnitStatus → UnitStatus → InvalidTransition

abbrev pub legal_transitions : List (UnitStatus × UnitStatus)
legal_transitions =
    (available, held)
    ∷ (held, available)
    ∷ (held, booked)
    ∷ (booked, available)
    ∷ (booked, agreement_signed)
    ∷ (agreement_signed, registered)
    ∷ (registered, possession)
    ∷ []

abbrev pub blockable_from : UnitStatus → Bool
blockable_from blocked = false
blockable_from _ = true

unfoldable pub is_valid_transition : UnitStatus → UnitStatus → Bool
is_valid_transition from to =
    if is_status to blocked
    then blockable_from from
    else if is_status from blocked
    then blockable_from to
    else any (λ t. is_status t.0 from && is_status t.1 to) legal_transitions

-- `throw new InvalidTransitionError`
unfoldable pub assert_valid_transition :
    {E : Type 0} → (InvalidTransition → E) → UnitStatus → UnitStatus → Result E (Unit {0})
unfolding is_valid_transition
assert_valid_transition error from to =
    throw_if (not (is_valid_transition from to)) (error (invalid_transition from to))
