-- ===== src/BigInt/Product/Rows.antt =====
-- `operator*` multiplies the integers.
use native.Mathlib.Nat.{mul-le-mul_right}
use csf.Base.{
  ℕ, zero, suc, ◌+◌, ◌-◌, ◌*◌, ◌%◌, ◌^◌, ◌≤◌, ◌<◌, bit_and, List, [], ◌∷◌, ◌≡◌, refl, sym, ap, ◌∙◌,
  arith, ◌||◌, Bool, Bool-cases, inl, inr, true, false, if◌then◌else◌, differ, length, replicate,
  u64, ◌>>>◌,
}
use csf.Base.Int.{ℤ, ◌*ℤ◌, pos_part, neg_part, sub_ℕ}
use csf.Base.Bits.{bit_and-eq-mod}
use csf.BigInt.{BigInt, of_word, rest, all_zero, is_zero}
use csf.BigInt.Value.{
  value, IsWords, to_ℤ, signed, value-rest, length-rest, rest-IsWords, all_zero-value,
  trim-IsTrimmed,
}
use csf.BigInt.Product.{mul_row, mul_rows, times}

-- The words from index `n` on are 0.
abbrev ClearFrom : ℕ → List ℕ → Type 0
ClearFrom n [] = Unit {0}
ClearFrom zero (r ∷ rs) = (r ≡ 0) × ClearFrom zero rs
ClearFrom (suc n) (r ∷ rs) = ClearFrom n rs

-- One product with its two additions fits 128 bits, and is the word stored and the carry.
mul_step :
    (a b r carry : ℕ)
    → a < 2 ^ 64
    → b < 2 ^ 64
    → r < 2 ^ 64
    → carry < 2 ^ 64
    → let product = (a * b + r + carry) % 2 ^ 128 in
      (bit_and product 0xffff_ffff_ffff_ffff + 2 ^ 64 * u64 (product >>> 64) ≡ a * b + r + carry)
      × (bit_and product 0xffff_ffff_ffff_ffff < 2 ^ 64)
mul_step a b r carry ha hb hr hc =
    let small : a * b ≤ (2 ^ 64 - 1) * b = mul-le-mul_right b (omega arith) in
    let mask =
      bit_and-eq-mod 64 ((a * b + r + carry) % 2 ^ 128) 0xffff_ffff_ffff_ffff (omega arith) in
    (omega (arith, mask), omega (arith, mask))

record RowSum (a : ℕ) (bs rs : List ℕ) (carry : ℕ) : Type 0 where
  total : value (mul_row a bs rs carry) ≡ value rs + a * value bs + carry
  words : IsWords (mul_row a bs rs carry)
  clear : ClearFrom (suc (length bs)) (mul_row a bs rs carry)
  size : length (mul_row a bs rs carry) ≡ length rs

mul_row-RowSum :
    (a : ℕ) (bs rs : List ℕ) (carry : ℕ)
    → a < 2 ^ 64
    → IsWords bs
    → IsWords rs
    → carry < 2 ^ 64
    → length bs < length rs
    → ClearFrom (length bs) rs
    → RowSum a bs rs carry
unfolding mul_row
mul_row-RowSum a bs [] carry ha hb hr hc l c = elim l [ ]
mul_row-RowSum a [] (r ∷ rs) carry ha hb hr hc l c = record {
  total = omega arith;
  words = (omega arith, hr.1);
  clear = c.1;
  size = refl;
}
mul_row-RowSum a (b ∷ bs) (r ∷ rs) carry ha hb hr hc l c =
    let step = mul_step a b r carry ha hb.0 hr.0 hc in
    let carry' = u64 (((a * b + r + carry) % 2 ^ 128) >>> 64) in
    let ih = mul_row-RowSum a bs rs carry' ha hb.1 hr.1 (omega arith) (omega arith) c in
    record {
      total = omega (arith, ih.total, step.0);
      words = (step.1, ih.words);
      clear = ih.clear;
      size = ap suc ih.size;
    }

record IsProduct (xs ys rs : List ℕ) : Type 0 where
  total : value (mul_rows xs ys rs) ≡ value rs + value xs * value ys
  words : IsWords (mul_rows xs ys rs)

rest-ClearFrom : (n : ℕ) (ws : List ℕ) → ClearFrom (suc n) ws → ClearFrom n (rest ws)
rest-ClearFrom n [] c = tt
rest-ClearFrom n (w ∷ ws) c = c

mul_rows-IsProduct :
    (xs ys rs : List ℕ)
    → IsWords xs
    → IsWords ys
    → IsWords rs
    → length xs + length ys ≤ length rs
    → ClearFrom (length ys) rs
    → IsProduct xs ys rs
unfolding mul_rows
mul_rows-IsProduct [] ys rs hx hy hr l c = record { total = omega arith; words = hr }
mul_rows-IsProduct (x ∷ xs) ys rs hx hy hr l c =
    let row = mul_row x ys rs 0 in
    let one = mul_row-RowSum x ys rs 0 hx.0 hy hr (omega arith) (omega arith) c in
    let (low, high) = rest-IsWords row one.words in
    let ih =
      mul_rows-IsProduct xs ys (rest row) hx.1 hy high (omega (arith, one.size, length-rest row))
        (rest-ClearFrom (length ys) row one.clear) in
    record { total = omega (arith, ih.total, one.total, value-rest row); words = (low, ih.words) }

zeros :
    (n m : ℕ)
    → (value (replicate n 0) ≡ 0)
      × IsWords (replicate n 0)
      × ClearFrom m (replicate n 0)
      × (length {A = ℕ} (replicate n 0) ≡ n)
zeros zero zero = (refl, tt, tt, refl)
zeros zero (suc m) = (refl, tt, tt, refl)
zeros (suc n) zero =
    let (v, w, c, l) = zeros n zero in (omega arith, (omega arith, w), (refl, c), ap suc l)
zeros (suc n) (suc m) = let (v, w, c, l) = zeros n m in (omega arith, (omega arith, w), c, ap suc l)

zero_product : (xs ys : List ℕ) → (all_zero xs || all_zero ys) ≡ true → value xs * value ys ≡ 0
zero_product xs ys z = elim (Bool-cases (all_zero xs)) [
  | inl e ↦ let x0 : value xs ≡ 0 = ground (arith, all_zero-value xs) in rw x0 (omega arith)
  | inr e ↦
      let y0 : value ys ≡ 0 = ground (arith, all_zero-value xs, all_zero-value ys) in
      rw y0 (omega arith)
]

sign-times :
    (a b : BigInt)
    → (times a b).sign
      ≡ (if all_zero a.magnitude || all_zero b.magnitude then false else differ a.sign b.sign)
unfolding times of_word is_zero
sign-times a b = ground arith

-- The product of two magnitudes, trimmed.
pub value-times :
    (a b : BigInt)
    → IsWords a.magnitude
    → IsWords b.magnitude
    → (value (times a b).magnitude ≡ value a.magnitude * value b.magnitude)
      × IsWords (times a b).magnitude
unfolding times is_zero of_word
value-times a b ha hb =
    let xs = a.magnitude in
    let ys = b.magnitude in
    let fresh = replicate (length xs + length ys) 0 in
    let (v, w, c, l) = zeros (length xs + length ys) (length ys) in
    let product = mul_rows-IsProduct xs ys fresh ha hb w (omega arith) c in
    let trimmed = trim-IsTrimmed (mul_rows xs ys fresh) in
    elim (Bool-cases (all_zero xs || all_zero ys)) [
      | inl z ↦ rw z (omega (arith, zero_product xs ys z), (omega arith, tt))
      | inr nz ↦ rw nz (omega (arith, trimmed.same, product.total, v), trimmed.words product.words)
    ]

pos_part-signed : (s : Bool) (n : ℕ) → pos_part (signed s n) ≡ (if s then 0 else n)
pos_part-signed true n = ground arith
pos_part-signed false n = refl

neg_part-signed : (s : Bool) (n : ℕ) → neg_part (signed s n) ≡ (if s then n else 0)
neg_part-signed true n = ground arith
neg_part-signed false n = refl

-- The product through the parts of its factors.
mul_of_parts :
    (p q p' q' : ℕ) (x y : ℤ)
    → pos_part x ≡ p
    → neg_part x ≡ q
    → pos_part y ≡ p'
    → neg_part y ≡ q'
    → x *ℤ y ≡ sub_ℕ (p * p' + q * q') (p * q' + q * p')
unfolding ◌*ℤ◌
mul_of_parts p q p' q' x y a b c d = rw (a, b, c, d)

signed_mul : (s t : Bool) (m n : ℕ) → signed (differ s t) (m * n) ≡ signed s m *ℤ signed t n
signed_mul s t m n =
    let product =
      mul_of_parts _ _ _ _ (signed s m) (signed t n) (pos_part-signed s m) (neg_part-signed s m)
        (pos_part-signed t n) (neg_part-signed t n) in
    cases s t ∙ sym product
  where
    cases :
        (s t : Bool)
        → signed (differ s t) (m * n)
          ≡ sub_ℕ
              ((if s then 0 else m) * (if t then 0 else n)
                + (if s then m else 0) * (if t then n else 0))
              ((if s then 0 else m) * (if t then n else 0)
                + (if s then m else 0) * (if t then 0 else n))
    cases true true = ground arith
    cases true false = ground arith
    cases false true = ground arith
    cases false false = ground arith

zero_sign : (s : Bool) (n : ℕ) → n ≡ 0 → signed s n ≡ signed false n
zero_sign true n e = ground arith
zero_sign false n e = refl

-- `operator*` multiplies the integers.
pub times_lem :
    (a b : BigInt) → IsWords a.magnitude → IsWords b.magnitude → to_ℤ (times a b) ≡ to_ℤ a *ℤ to_ℤ b
times_lem a b ha hb =
    let m = value a.magnitude in
    let n = value b.magnitude in
    ground (
      arith,
      zero_product a.magnitude b.magnitude,
      sign-times a b,
      value-times a b ha hb,
      zero_sign (differ a.sign b.sign) (m * n),
      signed_mul a.sign b.sign m n,
    )
