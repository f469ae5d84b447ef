-- ===== src/BigInt/Quotient/Step.antt =====
-- The three values that a round of the search computes.
use csf.Base.{ℕ, ◌+◌, ◌-◌, ◌*◌, ◌/◌, ◌<◌, false, List, ◌≡◌, refl, ◌∙◌, ap₂, [], ◌∷◌, arith}
use csf.BigInt.{
  BigInt, of_word, all_zero, is_zero, trim, sub_words, plus, plus_by, plus_same_sign, minus,
  minus_by, minus_same_sign, compare_magnitudes, is_lt,
}
use csf.BigInt.Value.{value, IsWords, all_zero-value, trim-IsTrimmed}
use csf.BigInt.Sum.{add_words-IsWords, sub_words-IsWords}
use csf.BigInt.Order.{compare_magnitudes-compare}
use csf.BigInt.Signs.{value-plus_same_sign, sign-plus_same_sign, value-trim-sub_words}
use csf.BigInt.Product.Rows.{value-times}
use csf.BigInt.Product.{times, div_by_2}
use csf.BigInt.Product.Halve.{div_by_2_lem}

-- `x` is the natural number `v`.
pub record IsNat (x : BigInt) (v : ℕ) : Type 0 where
  pub amount : value x.magnitude ≡ v
  pub words : IsWords x.magnitude
  pub positive : x.sign ≡ false

plus_naturals : (x y : BigInt) → x.sign ≡ false → y.sign ≡ false → plus x y ≡ plus_same_sign x y
unfolding plus
plus_naturals x y p q = rw (plus_by, p, q)

pub plus-IsNat : (x y : BigInt) {v w : ℕ} → IsNat x v → IsNat y w → IsNat (plus x y) (v + w)
plus-IsNat x y p q = rw (plus_naturals x y p.positive q.positive) (record {
  amount = omega (arith, value-plus_same_sign x y p.words q.words, p.amount, q.amount);
  words = unfold plus_same_sign in add_words-IsWords _ _ _ _;
  positive = sign-plus_same_sign x y ∙ p.positive;
})

pub one-IsNat : IsNat (of_word 1 false) 1
unfolding of_word
one-IsNat = record { amount = refl; words = (omega arith, tt); positive = refl }

pub zero-IsNat : IsNat (of_word 0 false) 0
unfolding of_word
zero-IsNat = record { amount = refl; words = (omega arith, tt); positive = refl }

pub middle-IsNat :
    (x y : BigInt) {v w : ℕ} → IsNat x v → IsNat y w → IsNat (div_by_2 (plus x y)) ((v + w) / 2)
middle-IsNat x y p q =
    let sum = plus-IsNat x y p q in
    let (half, words, sign) = div_by_2_lem (plus x y) sum.words in
    record {
      amount = omega (arith, half, sum.amount);
      words = words;
      positive = sign ∙ sum.positive;
    }

pub minus_naturals :
    (x y : BigInt)
    → 0 < value x.magnitude
    → 0 < value y.magnitude
    → x.sign ≡ false
    → y.sign ≡ false
    → minus x y ≡ minus_same_sign x y
unfolding minus is_zero
minus_naturals x y zx zy p q =
    let x_some : all_zero x.magnitude ≡ false = ground (arith, all_zero-value x.magnitude) in
    let y_some : all_zero y.magnitude ≡ false = ground (arith, all_zero-value y.magnitude) in
    rw (minus_by, x_some, y_some, p, q)

pub larger_first :
    (x y : BigInt)
    → is_lt (compare_magnitudes x y) ≡ false
    → x.sign ≡ false
    → ((minus_same_sign x y).magnitude ≡ trim (sub_words x.magnitude y.magnitude 0))
      × ((minus_same_sign x y).sign ≡ false)
unfolding minus_same_sign
larger_first x y c p = (rw c, ground arith)

-- `x - 1` for a positive `x`.
pub pred-IsNat :
    (x : BigInt) {v : ℕ} → IsNat x v → 0 < v → IsNat (minus x (of_word 1 false)) (v - 1)
unfolding of_word
pred-IsNat x p pos =
    let one = of_word 1 false in
    let xs = x.magnitude in
    let ones : List ℕ = 1 ∷ [] in
    let some_x : 0 < value xs = omega (arith, p.amount) in
    let order = compare_magnitudes-compare x one p.words one-IsNat.words in
    let (words, sign) = larger_first x one (ground (arith, order)) p.positive in
    let total =
      value-trim-sub_words xs ones p.words (omega arith, tt) (omega arith) tt (omega arith) in
    rw (minus_naturals x one some_x (omega arith) p.positive refl) (record {
      amount = rw words (omega (arith, total, p.amount));
      words = rw words ((trim-IsTrimmed _).words (sub_words-IsWords xs ones 0));
      positive = sign;
    })

pub times-IsNat :
    (x y : BigInt) {v w : ℕ}
    → IsNat x v
    → IsNat y w
    → (value (times x y).magnitude ≡ v * w) × IsWords (times x y).magnitude
times-IsNat x y p q =
    let (total, words) = value-times x y p.words q.words in
    (total ∙ ap₂ ◌*◌ p.amount q.amount, words)
