-- ===== src/BigInt.antt =====
-- csf_assign01/bigint.cpp and bigint.h: integers of any size, as a sign and a vector of 64-bit
-- words, the lowest first.
-- A loop over `i` runs on the words from index `i` on. A vector that a loop reads past its end
-- as 0 is read by `first` and `rest`. `compare` and `compare_magnitudes` return -1, 0 or 1,
-- here `Ordering.lt`, `Ordering.eq` or `Ordering.gt`.
pub mod Value
mod Tests
pub mod Sum
pub mod Order
pub mod Comparison
pub mod Signs
pub mod Shift
pub mod Product
pub mod Quotient
pub mod Print
use csf.Base.{
  ℕ, zero, suc, ◌+◌, ◌-◌, ◌*◌, ◌/◌, ◌%◌, ◌^◌, max, bit_and, bit_or, Ordering, Bool, true, false,
  not, ◌&&◌, ◌||◌, List, [], ◌∷◌, ◌++◌, Option, none, some, ltb, leb, ◌==◌, if◌then◌else◌, differ,
  length, get_or, replicate, u64, ◌<<<◌, ◌>>>◌,
}

pub record BigInt : Type 0 where
  pub magnitude : List ℕ
  pub sign : Bool

pub of_word : ℕ → Bool → BigInt
of_word val negative = record { magnitude = val ∷ []; sign = negative }

pub get_bits : BigInt → ℕ → ℕ
get_bits x index = if ltb index (length x.magnitude) then get_or x.magnitude index 0 else 0

pub is_bit_set : BigInt → ℕ → Bool
is_bit_set x n =
    let word_index = n / 64 in
    let bit_offset = n % 64 in
    if leb (length x.magnitude) word_index
    then false
    else bit_and (get_or x.magnitude word_index 0 >>> bit_offset) 1 == 1

abbrev pub first : List ℕ → ℕ
first [] = 0
first (w ∷ ws) = w

abbrev pub rest : List ℕ → List ℕ
rest [] = []
rest (w ∷ ws) = ws

-- `back` is read only of a vector that is not empty.
abbrev pub back : List ℕ → ℕ
back [] = 0
back (w ∷ []) = w
back (w ∷ v ∷ ws) = back (v ∷ ws)

abbrev pub pop_back : List ℕ → List ℕ
pop_back [] = []
pop_back (w ∷ []) = []
pop_back (w ∷ v ∷ ws) = w ∷ pop_back (v ∷ ws)

pub all_zero : List ℕ → Bool
all_zero [] = true
all_zero (w ∷ ws) = if ltb 0 w then false else all_zero ws

pub is_zero : BigInt → Bool
is_zero x = all_zero x.magnitude

-- `while (size() > 1 && back() == 0) pop_back();`, with as many rounds as there are words.
trim_loop : ℕ → List ℕ → List ℕ
trim_loop zero ws = ws
trim_loop (suc n) ws =
    let shorter = trim_loop n (pop_back ws) in
    if ltb 1 (length ws) && back ws == 0 then shorter else ws

pub trim : List ℕ → List ℕ
unfolding trim_loop
trim ws = trim_loop (length ws) ws

-- Unary minus. A zero word at the end of the vector is moved to its start.
pub negate : BigInt → BigInt
negate x = if is_zero x then x else (record {
  magnitude =
      if leb 1 (length x.magnitude) && back x.magnitude == 0
      then 0 ∷ pop_back x.magnitude
      else x.magnitude;
  sign = if all_zero x.magnitude then false else not x.sign;
})

count_loop : ℕ → List ℕ → ℕ
count_loop zero vec = zero
count_loop (suc i) vec =
    let lower = count_loop i vec in if get_or vec i 0 == 0 then lower else suc i

pub kill_leading_zeros : List ℕ → ℕ
unfolding count_loop
kill_leading_zeros vec = count_loop (length vec) vec

compare_loop : ℕ → List ℕ → List ℕ → Ordering
compare_loop zero left right = Ordering.eq
compare_loop (suc i) left right =
    let lower = compare_loop i left right in
    if ltb (get_or left i 0) (get_or right i 0)
    then Ordering.lt
    else if ltb (get_or right i 0) (get_or left i 0)
    then Ordering.gt
    else lower

pub compare_magnitudes : BigInt → BigInt → Ordering
compare_magnitudes lhs rhs =
    let left_size = kill_leading_zeros lhs.magnitude in
    let right_size = kill_leading_zeros rhs.magnitude in
    if ltb right_size left_size
    then Ordering.gt
    else if ltb left_size right_size
    then Ordering.lt
    else compare_loop left_size lhs.magnitude rhs.magnitude

-- `-c` for a result `c` of a comparison.
abbrev pub opposite : Ordering → Ordering
opposite Ordering.lt = Ordering.gt
opposite Ordering.eq = Ordering.eq
opposite Ordering.gt = Ordering.lt

pub compare : BigInt → BigInt → Ordering
compare a b =
    if is_zero a && is_zero b
    then Ordering.eq
    else if a.sign
    then if b.sign then opposite (compare_magnitudes a b) else Ordering.lt
    else if not b.sign
    then compare_magnitudes a b
    else Ordering.gt

-- The loop of `operator+`, with the rounds left.
pub add_words : ℕ → List ℕ → List ℕ → ℕ → List ℕ
add_words zero xs ys carry = if ltb 0 carry then 1 ∷ [] else []
add_words (suc n) xs ys carry =
    let sum = u64 (first xs + first ys) in
    let sum_with_carry = u64 (sum + carry) in
    let overflow = ltb sum (first xs) || ltb sum (first ys) || ltb sum_with_carry sum in
    sum_with_carry ∷ add_words n (rest xs) (rest ys) (if overflow then 1 else 0)

-- `operator+` below the test of the signs.
pub plus_same_sign : BigInt → BigInt → BigInt
plus_same_sign a b = record {
  magnitude = add_words (max (length a.magnitude) (length b.magnitude)) a.magnitude b.magnitude 0;
  sign = a.sign;
}

-- The loop of `operator-`. `1ULL << 64`, which C++ leaves undefined, is taken as 2 ^ 64, so it
-- vanishes in a `uint64_t`.
pub sub_words : List ℕ → List ℕ → ℕ → List ℕ
sub_words [] ys borrow = []
sub_words (a ∷ xs) ys borrow =
    let b = first ys in
    let enough = leb (u64 (b + borrow)) a in
    let sub = if enough then u64 (a + 2 ^ 64 - b - borrow) else u64 (2 ^ 64 + a - b - borrow) in
    sub ∷ sub_words xs (rest ys) (if enough then 0 else 1)

-- `c < 0` for a result `c` of a comparison.
abbrev pub is_lt : Ordering → Bool
is_lt Ordering.lt = true
is_lt Ordering.eq = false
is_lt Ordering.gt = false

-- `operator-` below the test of the signs.
pub minus_same_sign : BigInt → BigInt → BigInt
minus_same_sign a b =
    let swapped = is_lt (compare_magnitudes a b) in
    let larger = if swapped then b.magnitude else a.magnitude in
    let smaller = if swapped then a.magnitude else b.magnitude in
    let words = trim (sub_words larger smaller 0) in
    record {
      magnitude = words;
      sign = if all_zero words then false else if swapped then not a.sign else a.sign;
    }

-- `operator+` and `operator-` call one another: each takes the other as `minus` or `plus`.
pub plus_by : (BigInt → BigInt → BigInt) → BigInt → BigInt → BigInt
plus_by minus a b =
    if differ a.sign b.sign
    then if a.sign then minus b (negate a) else minus a (negate b)
    else plus_same_sign a b

pub minus_by : (BigInt → BigInt → BigInt) → BigInt → BigInt → BigInt
minus_by plus a b =
    if is_zero a
    then negate b
    else if is_zero b
    then a
    else if differ a.sign b.sign
    then plus a (negate b)
    else minus_same_sign a b

-- The calls end at the second: `operator-` calls `operator+` only at equal signs.
-- `Sum.minus_unfold` proves that these two are the functions of the source.
pub minus : BigInt → BigInt → BigInt
unfolding minus_by
minus a b = minus_by plus_same_sign a b

pub plus : BigInt → BigInt → BigInt
unfolding plus_by
plus a b = plus_by minus a b
