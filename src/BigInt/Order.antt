-- ===== src/BigInt/Order.antt =====
-- `kill_leading_zeros`, `compare_magnitudes` and `compare` against the order of the numbers.
use native.Mathlib.Nat.{pow-suc, one-le-pow, mul-le-mul_right, suc-mul}
use csf.Base
use csf.Base.{dec_lt}
use csf.Base.{
  ℕ, zero, suc, ◌+◌, ◌-◌, ◌*◌, ◌%◌, ◌^◌, ◌≤◌, ◌<◌, max, Bool, true, false, not, xor, ◌||◌, List, [],
  ◌∷◌, ◌≡◌, ◌≢◌, ◌⊎◌, inl, inr, refl, ap, arith, ltb, leb, ◌==◌, if◌then◌else◌, length, u64,
  Bool-cases, take, get_or, Ordering,
}
use csf.Base.Int.{ℤ, pos_part, neg_part}
use csf.BigInt.{
  BigInt, is_zero, kill_leading_zeros, count_loop, compare_loop, compare_magnitudes,
  compare as compare_signed,
}
use csf.BigInt.Value.{value, IsWords, to_ℤ, all_zero-value}

-- The weight of word `i`.
abbrev weight : ℕ → ℕ
weight i = (2 ^ 64) ^ i

weight-suc : (i g : ℕ) → g * weight (suc i) ≡ 2 ^ 64 * (g * weight i)
weight-suc i g = omega (arith, ap (λ t. g * t) (pow-suc (2 ^ 64) i))

weight_mono : (i j : ℕ) → i ≤ j → weight i ≤ weight j
weight_mono zero j h = one-le-pow j (2 ^ 64) (omega arith)
weight_mono (suc i) zero h = elim h [ ]
weight_mono (suc i) (suc j) h =
    omega (arith, pow-suc (2 ^ 64) i, pow-suc (2 ^ 64) j, weight_mono i j (omega arith))

value-take-suc :
    (i : ℕ) (ws : List ℕ) → value (take (suc i) ws) ≡ value (take i ws) + get_or ws i 0 * weight i
value-take-suc zero [] = refl
value-take-suc (suc i) [] = omega arith
value-take-suc zero (w ∷ ws) = omega arith
value-take-suc (suc i) (w ∷ ws) = omega (arith, value-take-suc i ws, weight-suc i (get_or ws i 0))

value-take-lt : (i : ℕ) (ws : List ℕ) → IsWords ws → value (take i ws) < weight i
value-take-lt zero ws h = omega arith
value-take-lt (suc i) [] h = one-le-pow (suc i) (2 ^ 64) (omega arith)
value-take-lt (suc i) (w ∷ ws) h = omega (arith, value-take-lt i ws h.1, weight-suc i 1)

value-take_all : (ws : List ℕ) → value (take (length ws) ws) ≡ value ws
value-take_all [] = refl
value-take_all (w ∷ ws) = omega (arith, value-take_all ws)

weight-le-value : (i : ℕ) (ws : List ℕ) → 0 < get_or ws i 0 → weight i ≤ value (take (suc i) ws)
weight-le-value i ws h =
    let below : 1 * weight i ≤ get_or ws i 0 * weight i = mul-le-mul_right (weight i) h in
    omega (arith, value-take-suc i ws, below)

-- The words above the count are 0, and the one below it is not.
record IsCount (n : ℕ) (vec : List ℕ) (k : ℕ) : Type 0 where
  same : value (take k vec) ≡ value (take n vec)
  top : (k ≡ 0) ⊎ ((j : ℕ) × (k ≡ suc j) × (weight j ≤ value (take k vec)))

count_loop-IsCount : (n : ℕ) (vec : List ℕ) → IsCount n vec (count_loop n vec)
unfolding count_loop
count_loop-IsCount zero vec = record { same = refl; top = inl refl }
count_loop-IsCount (suc i) vec = elim (Bool-cases (get_or vec i 0 == 0)) [
  | inl e ↦
      let ih = count_loop-IsCount i vec in
      let empty : get_or vec i 0 ≡ 0 = ground arith in
      rw e (record {
        same = omega (arith, ih.same, value-take-suc i vec, ap (λ g. g * weight i) empty);
        top = ih.top;
      })
  | inr e ↦ rw e (record { same = refl; top = inr (i, refl, weight-le-value i vec (ground arith)) })
]

size-IsCount : (ws : List ℕ) → IsCount (length ws) ws (kill_leading_zeros ws)
unfolding kill_leading_zeros
size-IsCount ws = count_loop-IsCount (length ws) ws

-- A vector that needs more words stands for a larger number.
value-lt_of_size :
    (xs ys : List ℕ)
    → IsWords xs
    → kill_leading_zeros xs < kill_leading_zeros ys
    → value xs < value ys
value-lt_of_size xs ys hx lt =
    let small = value-take-lt (kill_leading_zeros xs) xs hx in
    go (size-IsCount xs) (size-IsCount ys) (size-IsCount ys).top small
  where
    go :
        IsCount (length xs) xs (kill_leading_zeros xs)
        → IsCount (length ys) ys (kill_leading_zeros ys)
        → (kill_leading_zeros ys ≡ 0)
          ⊎ ((j : ℕ) × (kill_leading_zeros ys ≡ suc j)
              × (weight j ≤ value (take (kill_leading_zeros ys) ys)))
        → value (take (kill_leading_zeros xs) xs) < weight (kill_leading_zeros xs)
        → value xs < value ys
    go cx cy (inl e) small = absurd (omega arith)
    go cx cy (inr (j, e, large)) small = omega (
      arith,
      cx.same,
      cy.same,
      value-take_all xs,
      value-take_all ys,
      weight_mono (kill_leading_zeros xs) j (omega arith),
    )

-- The highest digit decides, then the digits below.
compare_digits :
    (p x y g h : ℕ)
    → x < p
    → y < p
    → Base.compare (x + g * p) (y + h * p)
      ≡ (if ltb g h then Ordering.lt else if ltb h g then Ordering.gt else Base.compare x y)
compare_digits p x y g h hx hy = elim (dec_lt g h) [
  | yes l ↦ let gap : suc g * p ≤ h * p = mul-le-mul_right p l in ground (arith, gap, suc-mul g p)
  | no nl ↦ elim (dec_lt h g) [
    | yes l ↦ let gap : suc h * p ≤ g * p = mul-le-mul_right p l in ground (arith, gap, suc-mul h p)
    | no nh ↦ let e : g ≡ h = omega arith in ground (arith, ap (λ t. t * p) e)
  ]
]

compare_loop-compare :
    (i : ℕ) (xs ys : List ℕ)
    → IsWords xs
    → IsWords ys
    → compare_loop i xs ys ≡ Base.compare (value (take i xs)) (value (take i ys))
unfolding compare_loop
compare_loop-compare zero xs ys hx hy = refl
compare_loop-compare (suc i) xs ys hx hy = rw (
  compare_loop-compare i xs ys hx hy,
  value-take-suc i xs,
  value-take-suc i ys,
  compare_digits (weight i) (value (take i xs)) (value (take i ys)) (get_or xs i 0) (get_or ys i 0)
      (value-take-lt i xs hx) (value-take-lt i ys hy),
)

-- `compare_magnitudes` orders two vectors of words as the numbers that they stand for, leading
-- zeros or not.
pub compare_magnitudes-compare :
    (a b : BigInt)
    → IsWords a.magnitude
    → IsWords b.magnitude
    → compare_magnitudes a b ≡ Base.compare (value a.magnitude) (value b.magnitude)
unfolding compare_magnitudes
compare_magnitudes-compare a b ha hb =
    let xs = a.magnitude in
    let ys = b.magnitude in
    let n = kill_leading_zeros xs in
    let m = kill_leading_zeros ys in
    let cx = size-IsCount xs in
    let cy = size-IsCount ys in
    ground (
      arith,
      value-lt_of_size xs ys ha,
      value-lt_of_size ys xs hb,
      compare_loop-compare n xs ys ha hb,
      cx.same,
      cy.same,
      value-take_all xs,
      value-take_all ys,
    )

abbrev pub compare_ℤ : ℤ → ℤ → Ordering
compare_ℤ x y = Base.compare (pos_part x + neg_part y) (pos_part y + neg_part x)

-- `compare` orders two `BigInt`s as the integers that they stand for, a negative zero included.
pub compare-compare_ℤ :
    (a b : BigInt)
    → IsWords a.magnitude
    → IsWords b.magnitude
    → compare_signed a b ≡ compare_ℤ (to_ℤ a) (to_ℤ b)
unfolding compare_signed is_zero
compare-compare_ℤ a b ha hb = ground (
  arith,
  all_zero-value a.magnitude,
  all_zero-value b.magnitude,
  compare_magnitudes-compare a b ha hb,
)
