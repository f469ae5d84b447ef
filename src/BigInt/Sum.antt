-- ===== src/BigInt/Sum.antt =====
-- The loops of `operator+` and `operator-`, and the sign rules round them.
use csf.Base.{
  ℕ, zero, suc, ◌+◌, ◌-◌, ◌*◌, ◌^◌, ◌≤◌, ◌<◌, ◌||◌, List, [], ◌∷◌, ◌≡◌, arith, ltb, leb,
  if◌then◌else◌, length, u64,
}
use csf.BigInt.{first, rest, add_words, sub_words}
use csf.BigInt.Value.{value, IsWords, value-rest, rest-IsWords, length-rest}

-- One round: the word stored and the carry handed on make up the sum.
carry_out :
    (a b carry : ℕ)
    → a < 2 ^ 64
    → b < 2 ^ 64
    → carry ≤ 1
    → let sum = u64 (a + b) in
      let stored = u64 (sum + carry) in
      stored + 2 ^ 64 * (if ltb sum a || ltb sum b || ltb stored sum then 1 else 0) ≡ a + b + carry
carry_out a b carry ha hb hc = ground arith

abbrev next_carry : ℕ → ℕ → ℕ → ℕ
next_carry a b carry =
    let sum = u64 (a + b) in if ltb sum a || ltb sum b || ltb (u64 (sum + carry)) sum then 1 else 0

next_carry-le : (a b carry : ℕ) → next_carry a b carry ≤ 1
next_carry-le a b carry = ground arith

pub value-add_words :
    (n : ℕ) (xs ys : List ℕ) (carry : ℕ)
    → length xs ≤ n
    → length ys ≤ n
    → IsWords xs
    → IsWords ys
    → carry ≤ 1
    → value (add_words n xs ys carry) ≡ value xs + value ys + carry
unfolding add_words
value-add_words zero [] [] carry p q hx hy hc = ground arith
value-add_words zero (x ∷ xs) ys carry p q hx hy hc = elim p [ ]
value-add_words zero [] (y ∷ ys) carry p q hx hy hc = elim q [ ]
value-add_words (suc n) xs ys carry p q hx hy hc =
    let (x_fits, xs_fit) = rest-IsWords xs hx in
    let (y_fits, ys_fit) = rest-IsWords ys hy in
    omega (
      arith,
      value-rest xs,
      value-rest ys,
      carry_out (first xs) (first ys) carry x_fits y_fits hc,
      value-add_words n (rest xs) (rest ys) (next_carry (first xs) (first ys) carry)
          (omega (arith, length-rest xs)) (omega (arith, length-rest ys)) xs_fit ys_fit
          (next_carry-le (first xs) (first ys) carry),
    )

pub add_words-IsWords : (n : ℕ) (xs ys : List ℕ) (carry : ℕ) → IsWords (add_words n xs ys carry)
unfolding add_words
add_words-IsWords zero xs ys carry = ground arith
add_words-IsWords (suc n) xs ys carry =
    (omega arith, add_words-IsWords n (rest xs) (rest ys) (next_carry (first xs) (first ys) carry))

-- No word above the lowest is all ones.
abbrev pub HasNoOnes : List ℕ → Type 0
HasNoOnes [] = Unit {0}
HasNoOnes (w ∷ ws) = (w < 2 ^ 64 - 1) × HasNoOnes ws

pub rest-HasNoOnes : (ws : List ℕ) → HasNoOnes ws → (first ws < 2 ^ 64 - 1) × HasNoOnes (rest ws)
rest-HasNoOnes [] h = (omega arith, tt)
rest-HasNoOnes (w ∷ ws) h = h

-- One round of the subtraction, where `b + borrow` does not wrap.
borrow_out :
    (a b borrow : ℕ)
    → a < 2 ^ 64
    → b + borrow < 2 ^ 64
    → let enough = leb (u64 (b + borrow)) a in
      (if enough then u64 (a + 2 ^ 64 - b - borrow) else u64 (2 ^ 64 + a - b - borrow)) + b + borrow
      ≡ a + 2 ^ 64 * (if enough then 0 else 1)
borrow_out a b borrow ha hb = ground arith

pub value-sub_words :
    (xs ys : List ℕ) (borrow : ℕ)
    → borrow ≤ 1
    → IsWords xs
    → IsWords ys
    → first ys + borrow < 2 ^ 64
    → HasNoOnes (rest ys)
    → length ys ≤ length xs
    → value ys + borrow ≤ value xs
    → value (sub_words xs ys borrow) + value ys + borrow ≡ value xs
unfolding sub_words
value-sub_words [] [] borrow b hx hy f o l v = omega arith
value-sub_words [] (y ∷ ys) borrow b hx hy f o l v = elim l [ ]
value-sub_words (x ∷ xs) ys borrow b hx hy f o l v =
    let step = borrow_out x (first ys) borrow hx.0 f in
    let enough = leb (u64 (first ys + borrow)) x in
    let (below, above) = rest-HasNoOnes (rest ys) o in
    let borrow' = if enough then 0 else 1 in
    let small : borrow' ≤ 1 = ground arith in
    omega (
      arith,
      step,
      value-rest ys,
      value-sub_words xs (rest ys) borrow' small hx.1 (rest-IsWords ys hy).1 (omega arith) above
          (omega (arith, length-rest ys)) (ground (arith, value-rest ys, step)),
    )

pub sub_words-IsWords : (xs ys : List ℕ) (borrow : ℕ) → IsWords (sub_words xs ys borrow)
unfolding sub_words
sub_words-IsWords [] ys borrow = tt
sub_words-IsWords (x ∷ xs) ys borrow =
    let enough = leb (u64 (first ys + borrow)) x in
    (ground arith, sub_words-IsWords xs (rest ys) (if enough then 0 else 1))

-- Where the lowest word borrows, the second word of the smaller number is all ones and no higher word of
-- it is, and what is above these words in the smaller number is neither longer nor larger than what is
-- in the larger one, the borrow is lost: the difference comes out 2 ^ 128 too large.
pub sub_words_lost_borrow :
    (a b c : ℕ) (xs ys : List ℕ)
    → a < b
    → b < 2 ^ 64
    → IsWords (c ∷ xs)
    → IsWords ys
    → HasNoOnes (rest ys)
    → length ys ≤ length xs
    → value ys ≤ value xs
    → let larger = a ∷ c ∷ xs in
      let smaller = b ∷ (2 ^ 64 - 1) ∷ ys in
      value (sub_words larger smaller 0) + value smaller ≡ value larger + 2 ^ 128
unfolding sub_words
sub_words_lost_borrow a b c xs ys lt hb hx hy o l v =
    ground (arith, value-sub_words xs ys 0, rest-IsWords ys hy)
