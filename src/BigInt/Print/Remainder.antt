-- ===== src/BigInt/Print/Remainder.antt =====
-- The digit that a round of `to_dec` takes off: `operator/` by 10, and what `operator-` leaves.
use csf.Base.{
  ℕ, zero, suc, ◌+◌, ◌-◌, ◌*◌, ◌/◌, ◌%◌, ◌^◌, ◌≤◌, ◌<◌, ◌≡◌, refl, ap, ◌∙◌, true, false, ◌&&◌, ◌||◌,
  arith, List, [], ◌∷◌, ltb, ◌==◌, length, if_lem, inl, inr, Bool-cases,
}
use csf.BigInt.{
  BigInt, of_word, is_zero, all_zero, back, pop_back, trim, trim_loop, sub_words, first, minus,
}
use csf.BigInt.Value.{value, IsWords, rest-IsWords, value-rest, all_zero-value}
use csf.BigInt.Order.{compare_magnitudes-compare}
use csf.BigInt.Product.{times}
use csf.BigInt.Product.Rows.{value-times}
use csf.BigInt.Quotient.{divide, quotient}
use csf.BigInt.Quotient.Step.{IsNat, minus_naturals, larger_first}
use csf.BigInt.Quotient.Rounded.{divide_lem}
use csf.BigInt.Print.{ten}

sign-times : (a b : BigInt) → a.sign ≡ false → b.sign ≡ false → (times a b).sign ≡ false
unfolding times of_word
sign-times a b p q =
    if_lem (λ (r : BigInt). r.sign ≡ false) (is_zero a || is_zero b) (λ _. refl)
      (λ _. ground (arith, p, q))

first-pop_back : (ws : List ℕ) → ltb 1 (length ws) ≡ true → first (pop_back ws) ≡ first ws
first-pop_back [] h = refl
first-pop_back (w ∷ []) h = absurd (ground arith)
first-pop_back (w ∷ v ∷ ws) h = refl

first-trim_loop : (n : ℕ) (ws : List ℕ) → first (trim_loop n ws) ≡ first ws
unfolding trim_loop
first-trim_loop zero ws = refl
first-trim_loop (suc n) ws =
    if_lem (λ (r : List ℕ). first r ≡ first ws) (ltb 1 (length ws) && back ws == 0)
      (λ p. first-trim_loop n (pop_back ws) ∙ first-pop_back ws (ground arith)) (λ p. refl)

first-trim : (ws : List ℕ) → first (trim ws) ≡ first ws
unfolding trim
first-trim ws = first-trim_loop (length ws) ws

-- The lowest word of a difference is right whatever becomes of the borrows.
first-sub_words :
    (xs ys : List ℕ)
    → IsWords xs
    → IsWords ys
    → 0 < value xs
    → first (sub_words xs ys 0) ≡ (first xs + 2 ^ 64 - first ys) % 2 ^ 64
unfolding sub_words
first-sub_words [] ys hx hy h = absurd (omega arith)
first-sub_words (a ∷ xs) ys hx hy h =
    let (ha, _) = hx in let (hb, _) = rest-IsWords ys hy in ground arith

minus_zero : (x y : BigInt) → is_zero x ≡ false → is_zero y ≡ true → minus x y ≡ x
unfolding minus
minus_zero x y p q = rw (p, q) refl

pub the_zero : (ws : List ℕ) → all_zero ws ≡ true → value ws ≡ 0
the_zero ws z = ground (arith, all_zero-value ws)

-- The lowest word of a difference of naturals.
first-minus :
    (x y : BigInt) (v : ℕ)
    → IsNat x v
    → 0 < v
    → IsWords y.magnitude
    → y.sign ≡ false
    → value y.magnitude ≤ v
    → first (minus x y).magnitude ≡ (v - value y.magnitude) % 2 ^ 64
first-minus x y v p some_x wy sy le =
    let xs = x.magnitude in
    let ys = y.magnitude in
    let low_x = (rest-IsWords xs p.words).0 in
    elim (Bool-cases (all_zero ys)) [
      | inl z ↦
          ap (λ r. first r.magnitude)
            (minus_zero x y (unfold is_zero in ground (arith, all_zero-value xs, p.amount))
              (unfold is_zero in z))
          ∙ omega (arith, p.amount, the_zero ys z, value-rest xs)
      | inr nz ↦
          let some_y : 0 < value ys = ground (arith, all_zero-value ys) in
          let order = compare_magnitudes-compare x y p.words wy in
          let (words, sign) = larger_first x y (ground (arith, order, p.amount)) p.positive in
          ap (λ r. first r.magnitude)
            (minus_naturals x y (omega (arith, p.amount)) some_y p.positive sy)
          ∙ ap first words
          ∙ first-trim (sub_words xs ys 0)
          ∙ first-sub_words xs ys p.words wy (omega (arith, p.amount))
          ∙ omega (arith, p.amount, value-rest xs, value-rest ys, (rest-IsWords ys wy).0)
    ]

-- The quotient of a round.
pub record Tenth (num : BigInt) (v : ℕ) : Type 0 where
  pub ans : BigInt
  pub returns : divide num ten ≡ quotient ans
  pub is_tenth : IsNat ans (v / 10)

pub tenth : (num : BigInt) (v : ℕ) → IsNat num v → Tenth num v
unfolding of_word
tenth num v p =
    let (q, e, correct, sign) = divide_lem num ten p.words (omega arith, tt) (omega arith) in
    record {
      ans = q;
      returns = e;
      is_tenth = record {
        amount = omega (arith, correct.lower, correct.upper, p.amount);
        words = correct.words;
        positive = ground (arith, sign, p.positive);
      };
    }

-- The digit that a round writes.
abbrev pub last_digit : BigInt → BigInt → ℕ
last_digit num ans = first (minus num (times ans ten)).magnitude

pub last_digit_lem :
    (num ans : BigInt) (v : ℕ)
    → IsNat num v
    → IsNat ans (v / 10)
    → 0 < v
    → last_digit num ans ≡ v % 10
unfolding of_word
last_digit_lem num ans v p q some_v =
    let (total, words) = value-times ans ten q.words (omega arith, tt) in
    let product : value (times ans ten).magnitude ≡ v / 10 * 10 =
      total ∙ ap (λ n. n * 10) q.amount in
    omega (
      arith,
      product,
      first-minus num (times ans ten) v p some_v words (sign-times ans ten q.positive refl)
          (omega (arith, product)),
    )
