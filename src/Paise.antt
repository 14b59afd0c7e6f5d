-- ===== src/Paise.antt =====
-- Amounts in hundredths, with products and quotients cut off there: a decimal arithmetic that meets
-- `IsExact`, on which the modelled code runs in the tests.
use desire_mlm_project.Base.{
  ℕ, suc, ◌+◌, ◌-◌, ◌*◌, ◌/◌, ◌≡◌, refl, Bool, arith, ltb, leb, ◌==◌, if◌then◌else◌,
}
use desire_mlm_project.Decimal.{Decimal, IsExact}

-- `negsuc n` is -(n + 1).
pub data ℤ : Type 0 where
  pos : ℕ → ℤ
  negsuc : ℕ → ℤ

abbrev pub pos_part : ℤ → ℕ
pos_part (pos n) = n
pos_part (negsuc _) = 0

abbrev pub neg_part : ℤ → ℕ
neg_part (pos _) = 0
neg_part (negsuc n) = suc n

abbrev pub sub_ℕ : ℕ → ℕ → ℤ
sub_ℕ a b = if leb b a then pos (a - b) else negsuc (b - a - 1)

abbrev mul_ℤ : ℤ → ℤ → ℤ
mul_ℤ a b =
    sub_ℕ ((pos_part a * pos_part b + neg_part a * neg_part b) / 100)
      ((pos_part a * neg_part b + neg_part a * pos_part b) / 100)

abbrev div_ℤ : ℤ → ℤ → ℤ
div_ℤ a b =
    if neg_part b == 0
    then sub_ℕ (pos_part a * 100 / pos_part b) (neg_part a * 100 / pos_part b)
    else sub_ℕ (neg_part a * 100 / neg_part b) (pos_part a * 100 / neg_part b)

abbrev leb_ℤ : ℤ → ℤ → Bool
leb_ℤ a b = leb (pos_part a + neg_part b) (pos_part b + neg_part a)

instance abbrev pub paise_decimal : Decimal ℤ
paise_decimal = record {
  zero = pos 0;
  hundred = pos 10_000;
  fifty = pos 5000;
  of_nat = λ n. pos (n * 100);
  plus = λ a b. sub_ℕ (pos_part a + pos_part b) (neg_part a + neg_part b);
  minus = λ a b. sub_ℕ (pos_part a + neg_part b) (neg_part a + pos_part b);
  mul = mul_ℤ;
  div = div_ℤ;
  negated = λ a. sub_ℕ (neg_part a) (pos_part a);
  abs = λ a. pos (pos_part a + neg_part a);
  min = λ a b. if leb_ℤ a b then a else b;
  to_decimal_places2 = λ a. a;
  to_decimal_places4 = λ a. a;
  greater_than = λ a b. ltb (pos_part b + neg_part a) (pos_part a + neg_part b);
  greater_than_or_equal_to = λ a b. leb_ℤ b a;
  less_than_or_equal_to = leb_ℤ;
  is_zero = λ a. pos_part a == neg_part a;
  is_negative = λ a. ltb (pos_part a) (neg_part a);
  equals = λ a b. pos_part a + neg_part b == pos_part b + neg_part a;
}

pub eq_of_parts : (a b : ℤ) → pos_part a + neg_part b ≡ pos_part b + neg_part a → a ≡ b
eq_of_parts a b h = ground arith

pub plus_parts :
    (a b : ℤ)
    → pos_part (paise_decimal.plus a b) + neg_part a + neg_part b
      ≡ neg_part (paise_decimal.plus a b) + pos_part a + pos_part b
plus_parts a b = ground arith

pub minus_parts :
    (a b : ℤ)
    → pos_part (paise_decimal.minus a b) + neg_part a + pos_part b
      ≡ neg_part (paise_decimal.minus a b) + pos_part a + neg_part b
minus_parts a b = ground arith

pub negated_parts :
    (a : ℤ)
    → pos_part (paise_decimal.negated a) + pos_part a
      ≡ neg_part (paise_decimal.negated a) + neg_part a
negated_parts a = ground arith

instance abbrev pub paise_exact : IsExact ℤ
paise_exact = record {
  credit = pos_part;
  debit = neg_part;
  eq_of_value = eq_of_parts;
  zero_value = refl;
  plus_value = plus_parts;
  minus_value = minus_parts;
  negated_value = negated_parts;
  greater_than_value = λ a b. refl;
  greater_than_or_equal_to_value = λ a b. refl;
  less_than_or_equal_to_value = λ a b. refl;
  equals_value = λ a b. refl;
  is_zero_value = λ a. refl;
  min_lem = λ a b. refl;
}
