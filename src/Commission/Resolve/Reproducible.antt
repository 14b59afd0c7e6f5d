-- ===== src/Commission/Resolve/Reproducible.antt =====
-- packages/commission/src/resolve.ts: later rows of the hierarchy and of the grades leave what a
-- past date resolves to.
use mathlib.Core.Path.{fun_ext}
use desire_mlm_project.Base.{
  ℕ, zero, suc, ◌+◌, ◌<◌, ◌≡◌, refl, ◌⊎◌, Bool, true, false, Option, none, some, List, [], ◌∷◌,
  arith, ap, find, All, if◌then◌else◌,
}
use desire_mlm_project.Commission.Types.{
  GradeAssignmentRecord, HierarchyAssignmentRecord, AssociateSnapshot, OrgSnapshot,
}
use desire_mlm_project.Commission.Resolve.{
  is_in_force, grade_as_of, or_nil, parent_of, parent_as_of, make_node, node_of, next_node, extend,
  walk, upline_chain_as_of,
}

-- The end of a row is as it was, or the open row has been closed later than `date`.
abbrev pub EndKept : ℕ → Option ℕ → Option ℕ → Type 0
EndKept date old new = (new ≡ old) ⊎ ((old ≡ none) × (t : ℕ) × (new ≡ some t) × (date < t))

pub record GradeKept (date : ℕ) (old new : GradeAssignmentRecord) : Type 0 where
  pub code_kept : new.grade_code ≡ old.grade_code
  pub rank_kept : new.grade_rank ≡ old.grade_rank
  pub from_kept : new.valid_from ≡ old.valid_from
  pub end_kept : EndKept date old.valid_to new.valid_to

pub record HierarchyKept (date : ℕ) (old new : HierarchyAssignmentRecord) : Type 0 where
  pub parent_kept : new.parent_associate_id ≡ old.parent_associate_id
  pub from_kept : new.valid_from ≡ old.valid_from
  pub end_kept : EndKept date old.valid_to new.valid_to

module _ {A : Type 0} where
  -- Every row is kept, in its place, and the rows behind them begin after `date`.
  abbrev pub Evolves : (A → A → Type 0) → (A → ℕ) → ℕ → List A → List A → Type 0
  Evolves Kept from date [] new = All (λ a. date < from a) new
  Evolves Kept from date (a ∷ old) [] = ⊥
  Evolves Kept from date (a ∷ old) (b ∷ new) = Kept a b × Evolves Kept from date old new

  abbrev pub Agree : (A → A → Type 0) → Option A → Option A → Type 0
  Agree Kept none none = Unit
  Agree Kept (some a) (some b) = Kept a b
  Agree Kept _ _ = ⊥

  find-later :
      (p : A → Bool) (from : A → ℕ) (date : ℕ) (new : List A)
      → ((a : A) → date < from a → p a ≡ false)
      → All (λ a. date < from a) new
      → find p new ≡ none
  find-later p from date [] later h = refl
  find-later p from date (a ∷ new) later (h, hs) =
      rw (later a h) (find-later p from date new later hs)

  find-Agree :
      (Kept : A → A → Type 0) (p : A → Bool) (from : A → ℕ) (date : ℕ) (old new : List A)
      → ((a b : A) → Kept a b → p b ≡ p a)
      → ((a : A) → date < from a → p a ≡ false)
      → Evolves Kept from date old new
      → Agree Kept (find p old) (find p new)
  find-Agree Kept p from date [] new same later h = rw (find-later p from date new later h) tt
  find-Agree Kept p from date (a ∷ old) [] same later h = absurd h
  find-Agree Kept p from date (a ∷ old) (b ∷ new) same later (k, ks) =
      rw (same a b k) (pick (p a) (find-Agree Kept p from date old new same later ks))
    where
      pick :
          (t : Bool)
          → Agree Kept (find p old) (find p new)
          → Agree Kept (if t then some a else find p old) (if t then some b else find p new)
      pick true r = k
      pick false r = r

in_force-kept :
    (date from : ℕ) (old new : Option ℕ)
    → EndKept date old new
    → is_in_force from new date ≡ is_in_force from old date
in_force-kept date from old new h = ground arith

not_yet_in_force :
    (date from : ℕ) (end : Option ℕ) → date < from → is_in_force from end date ≡ false
not_yet_in_force date from end h = ground arith

-- The organisation at a later time: histories have evolved, identities and statuses stand.
pub record IsLater (date : ℕ) (old new : OrgSnapshot) : Type 0 where
  pub grades_evolve :
      (id : ℕ)
      → Evolves
          (GradeKept date)
          (λ g. g.valid_from)
          date
          (or_nil (old.grade_history id))
          (or_nil (new.grade_history id))
  pub hierarchy_evolves :
      (id : ℕ)
      → Evolves
          (HierarchyKept date)
          (λ h. h.valid_from)
          date
          (or_nil (old.hierarchy_history id))
          (or_nil (new.hierarchy_history id))
  pub associates_stand : (id : ℕ) → new.associates id ≡ old.associates id

-- Both lookups find the same grade, or none.
pub grade_as_of-Agree :
    (date : ℕ) (old new : List GradeAssignmentRecord)
    → Evolves (GradeKept date) (λ g. g.valid_from) date old new
    → Agree (GradeKept date) (grade_as_of old date) (grade_as_of new date)
unfolding grade_as_of
grade_as_of-Agree date old new h =
    find-Agree (GradeKept date) (λ g. is_in_force g.valid_from g.valid_to date) (λ g. g.valid_from)
      date old new
      (λ a b k. rw k.from_kept (in_force-kept date a.valid_from a.valid_to b.valid_to k.end_kept))
      (λ a later. not_yet_in_force date a.valid_from a.valid_to later) h

make_node-Agree :
    (date level id : ℕ) (g g' : Option GradeAssignmentRecord) (info : Option AssociateSnapshot)
    → Agree (GradeKept date) g g'
    → make_node level id g' info ≡ make_node level id g info
make_node-Agree date level id none none info a = refl
make_node-Agree date level id (some g) (some g') none a = refl
make_node-Agree date level id (some g) (some g') (some i) a = rw (a.code_kept, a.rank_kept)
make_node-Agree date level id none (some g') info a = absurd a
make_node-Agree date level id (some g) none info a = absurd a

parent-Agree :
    (date : ℕ) (h h' : Option HierarchyAssignmentRecord)
    → Agree (HierarchyKept date) h h'
    → parent_of h' ≡ parent_of h
parent-Agree date none none a = refl
parent-Agree date (some h) (some h') a = a.parent_kept
parent-Agree date none (some h') a = absurd a
parent-Agree date (some h) none a = absurd a

module _ (date : ℕ) {old new : OrgSnapshot} (later : IsLater date old new) where
  parent_as_of-IsLater : (id : ℕ) → parent_as_of new date id ≡ parent_as_of old date id
  parent_as_of-IsLater id = parent-Agree date _ _ (
      find-Agree (HierarchyKept date) (λ h. is_in_force h.valid_from h.valid_to date)
        (λ h. h.valid_from) date (or_nil (old.hierarchy_history id))
        (or_nil (new.hierarchy_history id))
        (λ a b k. rw k.from_kept (in_force-kept date a.valid_from a.valid_to b.valid_to k.end_kept))
        (λ a h. not_yet_in_force date a.valid_from a.valid_to h) (later.hierarchy_evolves id))

  node_of-IsLater :
      (level : ℕ) (parent : Option ℕ)
      → node_of new date level parent ≡ node_of old date level parent
  node_of-IsLater level none = refl
  node_of-IsLater level (some p) =
      rw (later.associates_stand p)
        (make_node-Agree date level p _ _ _ (grade_as_of-Agree date _ _ (later.grades_evolve p)))

  next_node-IsLater : (level id : ℕ) → next_node new date level id ≡ next_node old date level id
  next_node-IsLater level id =
      rw (parent_as_of-IsLater id) (node_of-IsLater level (parent_as_of old date id))

  walk-IsLater : (left level id : ℕ) → walk new date left level id ≡ walk old date left level id
  unfolding walk
  walk-IsLater zero level id = refl
  walk-IsLater (suc left) level id =
      rw (next_node-IsLater level id)
        (ap (extend (next_node old date level id)) (fun_ext (walk-IsLater left (level + 1))))

  -- The chain of uplines of a date is what it was, whatever happened to the organisation later.
  pub upline_chain-IsLater :
      (seller max_level : ℕ)
      → upline_chain_as_of seller date max_level new ≡ upline_chain_as_of seller date max_level old
  unfolding upline_chain_as_of
  upline_chain-IsLater seller max_level = walk-IsLater max_level 1 seller
