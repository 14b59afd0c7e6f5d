-- ===== src/Inventory/Holds/Sweep.antt =====
-- packages/services/src/holds.ts: the expiry sweep releases what has run out, once.
use desire_mlm_project.Base.{
  ℕ, zero, suc, ◌≡◌, ◌≤◌, refl, Bool, true, false, Option, none, some, List, [], ◌∷◌, arith, ◌==◌,
  if◌then◌else◌, Option-cases, Bool-cases, inl, inr, length, ap, ◌∙◌,
}
use desire_mlm_project.Table.{passes, select, select_from, keep_row}
use desire_mlm_project.Inventory.Store.{UnitHold, Store}
use desire_mlm_project.Inventory.HoldExpiry.{
  is_stale, expire_one, expire_each, take, expire_stale_holds,
}

abbrev Sweep : Type 0
Sweep = Store × List (ℕ × UnitHold)

-- Which rows are stale

abbrev among : ℕ → List (ℕ × UnitHold) → Bool
among k [] = false
among k (h ∷ hs) = if k == h.0 then true else among k hs

abbrev stale_row : ℕ → Store → ℕ → Bool
stale_row now s k = passes (is_stale now) (s.holds.row k)

expire_one-stale :
    (now : ℕ) (h : ℕ × UnitHold) (acc : Sweep) (k : ℕ)
    → stale_row now (expire_one now h acc).0 k ≡ (if k == h.0 then false else stale_row now acc.0 k)
unfolding expire_one
expire_one-stale now h acc k = elim (Option-cases (acc.0.holds.row h.0)) [
  | inl missing ↦ ground arith
  | inr (row, found) ↦ ground arith
]

expire_one-ids :
    (now : ℕ) (h : ℕ × UnitHold) (acc : Sweep)
    → (expire_one now h acc).0.holds.ids ≡ acc.0.holds.ids
unfolding expire_one
expire_one-ids now h acc = ground arith

expire_each-stale :
    (now : ℕ) (hs : List (ℕ × UnitHold)) (acc : Sweep) (k : ℕ)
    → stale_row now (expire_each now hs acc).0 k
      ≡ (if among k hs then false else stale_row now acc.0 k)
unfolding expire_each
expire_each-stale now [] acc k = refl
expire_each-stale now (h ∷ hs) acc k =
    ground (arith, expire_each-stale now hs (expire_one now h acc) k, expire_one-stale now h acc k)

expire_each-ids :
    (now : ℕ) (hs : List (ℕ × UnitHold)) (acc : Sweep)
    → (expire_each now hs acc).0.holds.ids ≡ acc.0.holds.ids
unfolding expire_each
expire_each-ids now [] acc = refl
expire_each-ids now (h ∷ hs) acc =
    expire_each-ids now hs (expire_one now h acc) ∙ expire_one-ids now h acc

abbrev is_in : ℕ → List ℕ → Bool
is_in k [] = false
is_in k (id ∷ ids) = if k == id then true else is_in k ids

among-keep_row :
    (p : UnitHold → Bool) (k id : ℕ) (row : Option UnitHold) (rest : List (ℕ × UnitHold))
    → among k rest ≡ true
    → among k (keep_row p id row rest) ≡ true
among-keep_row p k id none rest h = h
among-keep_row p k id (some hold) rest h = ground arith

among-keep_row_self :
    (p : UnitHold → Bool) (k : ℕ) (row : Option UnitHold) (rest : List (ℕ × UnitHold))
    → passes p row ≡ true
    → among k (keep_row p k row rest) ≡ true
among-keep_row_self p k none rest h = cc
among-keep_row_self p k (some hold) rest h = ground arith

module _ (p : UnitHold → Bool) (row : ℕ → Option UnitHold) where
  among-select_from :
      (k : ℕ) (ids : List ℕ)
      → passes p (row k) ≡ true
      → is_in k ids ≡ true
      → among k (select_from p row ids) ≡ true
  among-select_from k [] h m = cc
  among-select_from k (id ∷ ids) h m = elim (Bool-cases (k == id)) [
    | inl same ↦
        let e : k ≡ id = ground arith in
        rw (← e) (among-keep_row_self p k (row k) (select_from p row ids) h)
    | inr other ↦
        among-keep_row p k id (row id) (select_from p row ids)
          (among-select_from k ids h (ground arith))
  ]

  keep_row-none : (id : ℕ) (r : Option UnitHold) → passes p r ≡ false → keep_row p id r [] ≡ []
  keep_row-none id none h = refl
  keep_row-none id (some hold) h = rw h

  select_from-nil :
      (ids : List ℕ)
      → ((k : ℕ) → is_in k ids ≡ true → passes p (row k) ≡ false)
      → select_from p row ids ≡ []
  select_from-nil [] h = refl
  select_from-nil (id ∷ ids) h =
      rw (select_from-nil ids (λ k m. h k (ground arith)))
        (keep_row-none id (row id) (h id (ground arith)))

take-all : {A : Type 0} (n : ℕ) (xs : List A) → length xs ≤ n → take n xs ≡ xs
take-all zero [] h = refl
take-all zero (x ∷ xs) h = absurd (omega arith)
take-all (suc n) [] h = refl
take-all (suc n) (x ∷ xs) h = ap (◌∷◌ x) (take-all n xs (omega arith))

-- If the limit admits every stale hold, none is left after the sweep.
sweep-no_stale :
    (s : Store) (now limit : ℕ)
    → length (select (is_stale now) s.holds) ≤ limit
    → select (is_stale now) (expire_stale_holds s now limit).0.holds ≡ []
unfolding expire_stale_holds
sweep-no_stale s now limit fits =
    let hs = select (is_stale now) s.holds in
    let after = (expire_each now hs (s, [])).0 in
    rw (take-all limit hs fits, expire_each-ids now hs (s, []))
      (select_from-nil (is_stale now) after.holds.row s.holds.ids λ k m. ground (
        arith,
        expire_each-stale now hs (s, []) k,
        among-select_from (is_stale now) s.holds.row k s.holds.ids,
      ))

sweep-nothing :
    (s : Store) (now limit : ℕ)
    → select (is_stale now) s.holds ≡ []
    → expire_stale_holds s now limit ≡ (s, [])
unfolding expire_stale_holds
sweep-nothing s now zero h = refl
sweep-nothing s now (suc limit) h = rw h

-- A second sweep at the same instant changes nothing and reports nothing, whatever its limit, if the
-- first one's limit admitted every stale hold.
pub expire_stale_holds_twice :
    (s : Store) (now limit again : ℕ)
    → length (select (is_stale now) s.holds) ≤ limit
    → let after = (expire_stale_holds s now limit).0 in
      expire_stale_holds after now again ≡ (after, [])
expire_stale_holds_twice s now limit again fits =
    sweep-nothing _ now again (sweep-no_stale s now limit fits)
