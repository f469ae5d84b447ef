-- ===== src/BigInt/Signs.antt =====
-- Unary minus, `operator+` and `operator-` over the signed numbers.
use csf.Base.{
  ℕ, ◌+◌, ◌*◌, ◌^◌, ◌≤◌, ◌<◌, max, true, false, not, differ, List, [], ◌∷◌, ◌≡◌, ◌⊎◌, inl, inr,
  refl, ap, ◌∙◌, arith, if◌then◌else◌, length, Bool-cases,
}
use csf.Base.Int.{ℤ, pos, ◌+ℤ◌, ◌-ℤ◌, int_laws, +ℤ_comm}
use csf.BigInt.{
  BigInt, rest, back, is_zero, negate, sub_words, plus_same_sign, minus_same_sign, plus_by,
  minus_by, plus, minus, trim,
}
use csf.BigInt.Value.{value, IsWords, to_ℤ, all_zero-value, value-pop_back, trim-IsTrimmed}
use csf.BigInt.Sum.{HasNoOnes, value-add_words, value-sub_words}
use csf.BigInt.Value.{rest-IsWords}
use csf.BigInt.Order.{compare_magnitudes-compare}

-- The top word is not 0, unless the number is.
abbrev pub HasTop : BigInt → Type 0
HasTop x = (value x.magnitude ≡ 0) ⊎ (0 < back x.magnitude)

-- Unary minus negates every integer whose top word is not 0, and keeps its words.
pub negate_lem :
    (x : BigInt)
    → HasTop x
    → (to_ℤ (negate x) ≡ pos 0 -ℤ to_ℤ x) × ((negate x).magnitude ≡ x.magnitude)
unfolding negate is_zero ◌-ℤ◌
negate_lem x top =
    (ground (arith, all_zero-value x.magnitude), ground (arith, all_zero-value x.magnitude))

length-pos : (ws : List ℕ) → 0 < value ws → 0 < length ws
length-pos [] h = h
length-pos (w ∷ ws) h = omega arith

-- A zero word on top is moved to the bottom: the magnitude is multiplied by 2 ^ 64.
pub negate-leading_zero :
    (x : BigInt)
    → 0 < value x.magnitude
    → back x.magnitude ≡ 0
    → (value (negate x).magnitude ≡ 2 ^ 64 * value x.magnitude) × ((negate x).sign ≡ not x.sign)
unfolding negate is_zero
negate-leading_zero x h e =
    let some_word = length-pos x.magnitude h in
    let digits = all_zero-value x.magnitude in
    (ground (arith, some_word, digits, value-pop_back x.magnitude e), ground (arith, digits))

sign-negate : (x : BigInt) → (negate x).sign ≡ (if is_zero x then x.sign else not x.sign)
unfolding negate is_zero
sign-negate x = ground arith

-- The functions of the source are `plus_by minus` and `minus_by plus`.
pub minus_unfold : (a b : BigInt) → minus a b ≡ minus_by plus a b
unfolding minus plus minus_by plus_by
minus_unfold a b = ground (arith, sign-negate b)

-- The sum of two magnitudes.
pub value-plus_same_sign :
    (a b : BigInt)
    → IsWords a.magnitude
    → IsWords b.magnitude
    → value (plus_same_sign a b).magnitude ≡ value a.magnitude + value b.magnitude
unfolding plus_same_sign
value-plus_same_sign a b ha hb =
    let n = max (length a.magnitude) (length b.magnitude) in
    omega (
      arith,
      value-add_words n a.magnitude b.magnitude 0 (omega arith) (omega arith) ha hb (omega arith),
    )

pub sign-plus_same_sign : (a b : BigInt) → (plus_same_sign a b).sign ≡ a.sign
unfolding plus_same_sign
sign-plus_same_sign a b = refl

back-pos : (ws : List ℕ) → 0 < back ws → 0 < value ws
back-pos [] h = h
back-pos (w ∷ []) h = omega arith
back-pos (w ∷ v ∷ ws) h = omega (arith, back-pos (v ∷ ws) h)

-- A vector with no leading zero is no longer than that of a number as large.
length-le :
    (xs ys : List ℕ) → IsWords xs → 0 < back ys → value ys ≤ value xs → length ys ≤ length xs
length-le xs [] hx top h = omega arith
length-le [] (y ∷ ys) hx top h = absurd (omega (arith, back-pos (y ∷ ys) top))
length-le (x ∷ xs) (y ∷ []) hx top h = omega arith
length-le (x ∷ xs) (y ∷ z ∷ ys) hx top h =
    omega (arith, length-le xs (z ∷ ys) hx.1 top (omega (arith, hx.0)))

-- What `operator-` needs of its operands: words of 64 bits, no zero word on top, and no word of
-- ones above the lowest.
pub record IsPlain (x : BigInt) : Type 0 where
  pub words : IsWords x.magnitude
  pub top : HasTop x
  pub no_ones : HasNoOnes (rest x.magnitude)

abbrev pub magnitude_diff : List ℕ → List ℕ → ℕ
magnitude_diff xs ys = value (trim (sub_words xs ys 0))

-- The smaller magnitude taken from the larger.
pub value-trim-sub_words :
    (xs ys : List ℕ)
    → IsWords xs
    → IsWords ys
    → 0 < back ys
    → HasNoOnes (rest ys)
    → value ys ≤ value xs
    → magnitude_diff xs ys + value ys ≡ value xs
value-trim-sub_words xs ys hx hy top ones le =
    let trimmed = trim-IsTrimmed (sub_words xs ys 0) in
    omega (
      arith,
      trimmed.same,
      value-sub_words xs ys 0 (omega arith) hx hy (omega (arith, rest-IsWords ys hy)) ones
          (length-le xs ys hx top le) (omega arith),
    )

-- The difference of two integers of one sign, neither of them 0.
minus_same_sign_lem :
    (a b : BigInt)
    → IsPlain a
    → IsPlain b
    → 0 < value a.magnitude
    → 0 < value b.magnitude
    → a.sign ≡ b.sign
    → to_ℤ (minus_same_sign a b) ≡ to_ℤ a -ℤ to_ℤ b
unfolding minus_same_sign ◌-ℤ◌
minus_same_sign_lem a b pa pb za zb same =
    let xs = a.magnitude in
    let ys = b.magnitude in
    let top_a : 0 < back xs = ground (arith, pa.top) in
    let top_b : 0 < back ys = ground (arith, pb.top) in
    ground (
      arith,
      compare_magnitudes-compare a b pa.words pb.words,
      all_zero-value (trim (sub_words xs ys 0)),
      all_zero-value (trim (sub_words ys xs 0)),
      value-trim-sub_words xs ys pa.words pb.words top_b pb.no_ones,
      value-trim-sub_words ys xs pb.words pa.words top_a pa.no_ones,
    )

negate-IsPlain : (x : BigInt) → IsPlain x → IsPlain (negate x)
negate-IsPlain x p =
    let e = (negate_lem x p.top).1 in
    record { words = rw e p.words; top = rw e p.top; no_ones = rw e p.no_ones }

-- `operator-` subtracts the integers, for operands of every sign, either of them 0 or not.
pub minus_lem : (a b : BigInt) → IsPlain a → IsPlain b → to_ℤ (minus a b) ≡ to_ℤ a -ℤ to_ℤ b
unfolding minus minus_by is_zero ◌-ℤ◌
minus_lem a b pa pb =
    let pb' = negate-IsPlain b pb in
    ground (
      arith,
      all_zero-value a.magnitude,
      all_zero-value b.magnitude,
      negate_lem b pb.top,
      sign-negate b,
      minus_same_sign_lem a b pa pb,
      value-plus_same_sign a (negate b) pa.words pb'.words,
      sign-plus_same_sign a (negate b),
    )

pub plus_same_sign_lem :
    (a b : BigInt)
    → IsPlain a
    → IsPlain b
    → a.sign ≡ b.sign
    → to_ℤ (plus_same_sign a b) ≡ to_ℤ a +ℤ to_ℤ b
unfolding ◌+ℤ◌
plus_same_sign_lem a b pa pb e =
    ground (arith, value-plus_same_sign a b pa.words pb.words, sign-plus_same_sign a b)

sub_of_opposite : (x y z : ℤ) → z ≡ pos 0 -ℤ y → x -ℤ z ≡ x +ℤ y
sub_of_opposite x y z e = rw e (omega int_laws)

plus_negative :
    (a b : BigInt) → differ a.sign b.sign ≡ true → a.sign ≡ true → plus a b ≡ minus b (negate a)
unfolding plus
plus_negative a b other e = ground arith

plus_positive :
    (a b : BigInt) → differ a.sign b.sign ≡ true → a.sign ≡ false → plus a b ≡ minus a (negate b)
unfolding plus
plus_positive a b other e = ground arith

plus_same : (a b : BigInt) → differ a.sign b.sign ≡ false → plus a b ≡ plus_same_sign a b
unfolding plus
plus_same a b e = rw (plus_by, e)

-- `operator+` adds the integers, for operands of every sign.
pub plus_lem : (a b : BigInt) → IsPlain a → IsPlain b → to_ℤ (plus a b) ≡ to_ℤ a +ℤ to_ℤ b
plus_lem a b pa pb = elim (Bool-cases (differ a.sign b.sign)) [
  | inl other ↦ elim (Bool-cases a.sign) [
    | inl negative ↦
        ap to_ℤ (plus_negative a b other negative)
        ∙ minus_lem b (negate a) pb (negate-IsPlain a pa)
        ∙ sub_of_opposite (to_ℤ b) (to_ℤ a) (to_ℤ (negate a)) (negate_lem a pa.top).0
        ∙ +ℤ_comm (to_ℤ b) (to_ℤ a)
    | inr positive ↦
        ap to_ℤ (plus_positive a b other positive)
        ∙ minus_lem a (negate b) pa (negate-IsPlain b pb)
        ∙ sub_of_opposite (to_ℤ a) (to_ℤ b) (to_ℤ (negate b)) (negate_lem b pb.top).0
  ]
  | inr same ↦ ap to_ℤ (plus_same a b same) ∙ plus_same_sign_lem a b pa pb (ground arith)
]
