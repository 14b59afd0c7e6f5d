-- ===== src/Base/Throws.antt =====
-- A computation that returns or throws.
use mathlib.Core.Path.{◌≡◌, refl}
use mathlib.Core.Bool.{Bool, true, false}
use mathlib.Core.Option.{Option, none, some}
use mathlib.Core.Logic.{◌⊎◌, inl, inr}

pub data Result (E A : Type 0) : Type 0 where
  ok : A → Result E A
  err : E → Result E A

module _ {E A : Type 0} where
  infixl 5 ◌>>=◌
  abbrev pub ◌>>=◌ : {B : Type 0} → Result E A → (A → Result E B) → Result E B
  err problem >>= next = err problem
  ok value >>= next = next value

  abbrev pub or_throw : Option A → E → Result E A
  or_throw (some value) problem = ok value
  or_throw none problem = err problem

  -- A chain that returns went through a first value.
  pub >>=-eq-ok :
      {B : Type 0} (first : Result E A) (next : A → Result E B) {last : B}
      → (first >>= next) ≡ ok last
      → (between : A) × (first ≡ ok between) × (next between ≡ ok last)
  >>=-eq-ok (err problem) next chain = cc
  >>=-eq-ok (ok value) next chain = (value, refl, chain)

  pub ok-injective : {a b : A} → ◌≡◌ {A = Result E A} (ok a) (ok b) → a ≡ b
  ok-injective e = cc

  pub Result-cases : (m : Result E A) → ((e : E) × (m ≡ err e)) ⊎ ((a : A) × (m ≡ ok a))
  Result-cases (ok a) = inr (a, refl)
  Result-cases (err e) = inl (e, refl)

-- The second computation runs if the first one returns.
infixl 5 ◌>>◌
abbrev pub ◌>>◌ : {E B : Type 0} → Result E (Unit {0}) → Result E B → Result E B
err problem >> next = err problem
ok done >> next = next

-- `if (test) throw problem`
abbrev pub throw_if : {E : Type 0} → Bool → E → Result E (Unit {0})
throw_if false problem = ok tt
throw_if true problem = err problem

-- A guarded computation that returns passed its guard.
pub throw_if->>-eq_ok :
    {E B : Type 0} (test : Bool) (problem : E) (next : Result E B) {last : B}
    → (throw_if test problem >> next) ≡ ok last
    → (test ≡ false) × (next ≡ ok last)
throw_if->>-eq_ok false problem next e = (refl, e)
throw_if->>-eq_ok true problem next e = cc

pub >>-eq_ok :
    {E B : Type 0} (first : Result E (Unit {0})) (next : Result E B) {last : B}
    → (first >> next) ≡ ok last
    → (first ≡ ok tt) × (next ≡ ok last)
>>-eq_ok (ok done) next e = (refl, e)
>>-eq_ok (err problem) next e = cc
