-- ===== src/Table.antt =====
-- A table of the database: the identifiers of its rows in the order of insertion, and the rows. An
-- update of a row that is not there changes nothing.
use desire_mlm_project.Base.{
  ℕ, ◌+◌, Bool, false, Option, none, some, List, [], ◌∷◌, ◌++◌, ◌==◌, if◌then◌else◌,
}

pub record Table (A : Type 0) : Type 0 where
  pub ids : List ℕ
  pub row : ℕ → Option A

module _ {A : Type 0} where
  abbrev pub map_row : (A → A) → Option A → Option A
  map_row f none = none
  map_row f (some a) = some (f a)

  -- `update({ where: { id } })`
  abbrev pub update : ℕ → (A → A) → Table A → Table A
  update id f t = record t { row = λ k. if k == id then map_row f (t.row k) else t.row k }

  -- `create`
  abbrev pub insert : ℕ → A → Table A → Table A
  insert id a t = record {
    ids = t.ids ++ (id ∷ []);
    row = λ k. if k == id then some a else t.row k;
  }

  abbrev pub passes : (A → Bool) → Option A → Bool
  passes p none = false
  passes p (some a) = p a

  abbrev pub keep_row : (A → Bool) → ℕ → Option A → List (ℕ × A) → List (ℕ × A)
  keep_row p id none rest = rest
  keep_row p id (some a) rest = if p a then (id, a) ∷ rest else rest

  abbrev pub select_from : (A → Bool) → (ℕ → Option A) → List ℕ → List (ℕ × A)
  select_from p row [] = []
  select_from p row (id ∷ ids) = keep_row p id (row id) (select_from p row ids)

  -- `findMany({ where })`
  abbrev pub select : (A → Bool) → Table A → List (ℕ × A)
  select p t = select_from p t.row t.ids

  abbrev pub count_from : (A → Bool) → (ℕ → Option A) → List ℕ → ℕ
  count_from p row [] = 0
  count_from p row (id ∷ ids) =
      let rest = count_from p row ids in if passes p (row id) then rest + 1 else rest

  -- `count({ where })`
  abbrev pub count : (A → Bool) → Table A → ℕ
  count p t = count_from p t.row t.ids

  abbrev pub first_row : (A → Bool) → ℕ → Option A → Option (ℕ × A) → Option (ℕ × A)
  first_row p id none rest = rest
  first_row p id (some a) rest = if p a then some (id, a) else rest

  abbrev pub find_first_from : (A → Bool) → (ℕ → Option A) → List ℕ → Option (ℕ × A)
  find_first_from p row [] = none
  find_first_from p row (id ∷ ids) = first_row p id (row id) (find_first_from p row ids)

  -- `findFirst({ where })`
  abbrev pub find_first : (A → Bool) → Table A → Option (ℕ × A)
  find_first p t = find_first_from p t.row t.ids
