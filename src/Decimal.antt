-- ===== src/Decimal.antt =====
-- The interface of decimal.js (`Decimal`, and `Prisma.Decimal`, which is the same class), which the
-- repository imports and does not contain. `Decimal` holds the operations that the modelled code
-- calls; `IsExact` says what the theorems take from them.
pub mod Laws
use desire_mlm_project.Base.{ℕ, ◌+◌, ◌≤◌, ◌≡◌, Bool, leb, ltb, ◌==◌, if◌then◌else◌}

pub record Decimal (D : Type 0) : Type 0 where
  -- new Decimal(0), new Decimal(100), new Decimal("50"), and an integer as a decimal
  pub zero : D
  pub hundred : D
  pub fifty : D
  pub of_nat : ℕ → D
  pub plus : D → D → D
  pub minus : D → D → D
  pub mul : D → D → D
  pub div : D → D → D
  pub negated : D → D
  pub abs : D → D
  pub min : D → D → D
  -- toDecimalPlaces(2), with the library's default rounding, half up
  pub to_decimal_places2 : D → D
  -- toFixed(4), read back
  pub to_decimal_places4 : D → D
  pub greater_than : D → D → Bool
  pub greater_than_or_equal_to : D → D → Bool
  pub less_than_or_equal_to : D → D → Bool
  pub is_zero : D → Bool
  pub is_negative : D → Bool
  pub equals : D → D → Bool

-- A decimal is worth `credit - debit` units of the last decimal place that the library keeps.
-- Sums and differences are exact while they fit the library's precision of 20 significant digits,
-- and the tests compare the values.
pub record IsExact (D : Type 0) ⦃d : Decimal D⦄ : Type 0 where
  pub credit : D → ℕ
  pub debit : D → ℕ
  pub eq_of_value : (a b : D) → credit a + debit b ≡ credit b + debit a → a ≡ b
  pub zero_value : credit d.zero ≡ debit d.zero
  pub plus_value :
      (a b : D) → credit (d.plus a b) + debit a + debit b ≡ debit (d.plus a b) + credit a + credit b
  pub minus_value :
      (a b : D)
      → credit (d.minus a b) + debit a + credit b ≡ debit (d.minus a b) + credit a + debit b
  pub negated_value : (a : D) → credit (d.negated a) + credit a ≡ debit (d.negated a) + debit a
  pub greater_than_value :
      (a b : D) → d.greater_than a b ≡ ltb (credit b + debit a) (credit a + debit b)
  pub greater_than_or_equal_to_value :
      (a b : D) → d.greater_than_or_equal_to a b ≡ leb (credit b + debit a) (credit a + debit b)
  pub less_than_or_equal_to_value :
      (a b : D) → d.less_than_or_equal_to a b ≡ leb (credit a + debit b) (credit b + debit a)
  pub is_zero_value : (a : D) → d.is_zero a ≡ (credit a == debit a)
  pub equals_value : (a b : D) → d.equals a b ≡ (credit a + debit b == credit b + debit a)
  pub min_lem : (a b : D) → d.min a b ≡ (if d.less_than_or_equal_to a b then a else b)

-- The order of values.
infix 50 ◌≼◌
abbrev pub ◌≼◌ : {D : Type 0} ⦃d : Decimal D⦄ ⦃x : IsExact D⦄ → D → D → Type 0
◌≼◌ ⦃x⦄ a b = x.credit a + x.debit b ≤ x.credit b + x.debit a
