-- ===== src/Decimal/Laws.antt =====
-- Arithmetic of exact decimals.
use desire_mlm_project.Base.{◌≡◌, ap, ◌∙◌, true, false, arith}
use desire_mlm_project.Decimal.{Decimal, IsExact, ◌≼◌}

module _ {D : Type 0} ⦃d : Decimal D⦄ ⦃x : IsExact D⦄ where
  open d use {zero as nought, plus, minus, min, negated, greater_than}
  open x use {eq_of_value, plus_value, minus_value, zero_value}

  pub plus_comm : (a b : D) → plus a b ≡ plus b a
  plus_comm a b = eq_of_value _ _ (omega (arith, plus_value a b, plus_value b a))

  pub plus_assoc : (a b c : D) → plus (plus a b) c ≡ plus a (plus b c)
  plus_assoc a b c = eq_of_value _ _ (
      omega
        (arith, plus_value (plus a b) c, plus_value a b, plus_value a (plus b c), plus_value b c))

  pub plus_zero : (a : D) → plus a nought ≡ a
  plus_zero a = eq_of_value _ _ (omega (arith, plus_value a nought, zero_value))

  pub plus_right_comm : (a b c : D) → plus (plus a b) c ≡ plus (plus a c) b
  plus_right_comm a b c = eq_of_value _ _ (
      omega
        (arith, plus_value (plus a b) c, plus_value a b, plus_value (plus a c) b, plus_value a c))

  pub plus-minus : (a b : D) → plus b (minus a b) ≡ a
  plus-minus a b = eq_of_value _ _ (omega (arith, plus_value b (minus a b), minus_value a b))

  pub not_greater_than : (a b : D) → greater_than a b ≡ false → a ≼ b
  not_greater_than a b h = ground (arith, x.greater_than_value a b)

  pub is_greater_than : (a b : D) → greater_than a b ≡ true → b ≼ a
  is_greater_than a b h = ground (arith, x.greater_than_value a b)

  pub minus_twice : (a b c : D) → a ≡ plus (plus (minus (minus a b) c) b) c
  minus_twice a b c = eq_of_value _ _ (
      omega (
        arith,
        minus_value a b,
        minus_value (minus a b) c,
        plus_value (minus (minus a b) c) b,
        plus_value (plus (minus (minus a b) c) b) c,
      ))

  pub interchange :
      (a b c a' b' c' : D)
      → plus (plus (plus a b) c) (plus (plus a' b') c')
        ≡ plus (plus (plus a a') (plus b b')) (plus c c')
  interchange a b c a' b' c' = eq_of_value _ _ (
      omega (
        arith,
        plus_value a b,
        plus_value (plus a b) c,
        plus_value a' b',
        plus_value (plus a' b') c',
        plus_value (plus (plus a b) c) (plus (plus a' b') c'),
        plus_value a a',
        plus_value b b',
        plus_value c c',
        plus_value (plus a a') (plus b b'),
        plus_value (plus (plus a a') (plus b b')) (plus c c'),
      ))

  pub insert_term : (a b c : D) → plus (plus a b) c ≡ plus a (plus (plus nought b) c)
  insert_term a b c = eq_of_value _ _ (
      omega (
        arith,
        zero_value,
        plus_value a b,
        plus_value (plus a b) c,
        plus_value nought b,
        plus_value (plus nought b) c,
        plus_value a (plus (plus nought b) c),
      ))

  -- A term that is added at the end may as well be added to an inner term.
  pub carry_second : (a b c v : D) → plus (plus (plus a b) c) v ≡ plus (plus a (plus b v)) c
  carry_second a b c v = plus_right_comm (plus a b) c v ∙ ap (λ t. plus t c) (plus_assoc a b v)

  pub carry_third :
      (a b c e v : D) → plus (plus (plus (plus a b) c) e) v ≡ plus (plus (plus a (plus b v)) c) e
  carry_third a b c e v =
      plus_right_comm (plus (plus a b) c) e v ∙ ap (λ t. plus t e) (carry_second a b c v)

  pub carry_fourth :
      (a b c e f v : D)
      → plus (plus (plus (plus (plus a b) c) e) f) v ≡ plus (plus (plus (plus a (plus b v)) c) e) f
  carry_fourth a b c e f v =
      plus_right_comm (plus (plus (plus a b) c) e) f v ∙ ap (λ t. plus t f) (carry_third a b c e v)

  pub minus_nought : (a b : D) → d.is_zero b ≡ true → a ≡ minus a b
  minus_nought a b h = eq_of_value _ _ (ground (arith, x.is_zero_value b, minus_value a b))

  pub plus-negated : (a b : D) → plus a (negated b) ≡ minus a b
  plus-negated a b =
      eq_of_value _ _ (omega (arith, plus_value a (negated b), x.negated_value b, minus_value a b))

  -- What is taken off a sum may as well be taken off its first term.
  pub take_off_second : (a b v : D) → minus (plus a b) v ≡ plus (minus a v) b
  take_off_second a b v = eq_of_value _ _ (
      omega (
        arith,
        plus_value a b,
        minus_value (plus a b) v,
        minus_value a v,
        plus_value (minus a v) b,
      ))

  pub take_off_third : (a b c v : D) → minus (plus (plus a b) c) v ≡ plus (plus (minus a v) b) c
  take_off_third a b c v =
      take_off_second (plus a b) c v ∙ ap (λ t. plus t c) (take_off_second a b v)

  pub equals→≡ : (a b : D) → d.equals a b ≡ true → a ≡ b
  equals→≡ a b h = eq_of_value a b (ground (arith, x.equals_value a b))

  pub plus-cancel : (a b : D) → plus a b ≡ a → b ≡ nought
  plus-cancel a b h =
      eq_of_value b nought (omega (arith, zero_value, plus_value a b, ap x.credit h, ap x.debit h))
