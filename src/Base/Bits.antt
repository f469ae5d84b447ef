-- ===== src/Base/Bits.antt =====
-- `|` of fields that do not overlap is a sum, and `&` with a mask of ones is a remainder.
use Prim.Native.Nat.{digits, bit_and-bitwise, bit_or-bitwise}
use native.Mathlib.Nat.{pow-suc, one-le-pow}
use csf.Base.{
  ℕ, zero, suc, ◌+◌, ◌*◌, ◌/◌, ◌%◌, ◌^◌, ◌≤◌, ◌<◌, min, max, bit_and, bit_or, ◌≡◌, refl, ap, ◌∙◌,
  arith,
}

-- Any two amounts of fuel that cover `x` read the same digits.
same_digits :
    (past : ℕ → ℕ) (op : ℕ → ℕ → ℕ) (f g x y : ℕ)
    → x ≤ f
    → x ≤ g
    → digits past op f x y ≡ digits past op g x y
same_digits past op zero zero x y p q = refl
same_digits past op zero (suc g) zero y p q = refl
same_digits past op zero (suc g) (suc x) y p q = elim p [ ]
same_digits past op (suc f) zero zero y p q = refl
same_digits past op (suc f) zero (suc x) y p q = elim q [ ]
same_digits past op (suc f) (suc g) zero y p q = refl
same_digits past op (suc f) (suc g) (suc x) y p q =
    ap (λ t. t * 2 + op (suc x % 2) (y % 2))
      (same_digits past op f g (suc x / 2) (y / 2) (omega arith) (omega arith))

or_low : (a b : ℕ) → bit_or a b ≡ 2 * bit_or (a / 2) (b / 2) + max (a % 2) (b % 2)
or_low zero b = omega (arith, bit_or-bitwise 0 b, bit_or-bitwise 0 (b / 2))
or_low (suc a) b = omega (
  arith,
  bit_or-bitwise (suc a) b,
  bit_or-bitwise (suc a / 2) (b / 2),
  same_digits (λ t. t) max a (suc a / 2) (suc a / 2) (b / 2) (omega arith) (omega arith),
)

pub and_low : (a b : ℕ) → bit_and a b ≡ 2 * bit_and (a / 2) (b / 2) + min (a % 2) (b % 2)
and_low zero b = omega (arith, bit_and-bitwise 0 b, bit_and-bitwise 0 (b / 2))
and_low (suc a) b = omega (
  arith,
  bit_and-bitwise (suc a) b,
  bit_and-bitwise (suc a / 2) (b / 2),
  same_digits (λ t. 0) min a (suc a / 2) (suc a / 2) (b / 2) (omega arith) (omega arith),
)

or_nothing : (n a : ℕ) → a ≤ n → bit_or a 0 ≡ a
or_nothing n zero h = refl
or_nothing zero (suc a) h = elim h [ ]
or_nothing (suc n) (suc a) h =
    omega (arith, or_low (suc a) 0, or_nothing n (suc a / 2) (omega arith))

and_nothing : (n a : ℕ) → a ≤ n → bit_and a 0 ≡ 0
and_nothing n zero h = refl
and_nothing zero (suc a) h = elim h [ ]
and_nothing (suc n) (suc a) h =
    omega (arith, and_low (suc a) 0, and_nothing n (suc a / 2) (omega arith))

doubled : (q k : ℕ) → q * 2 ^ suc k ≡ 2 * (q * 2 ^ k)
doubled q k = omega (arith, ap (λ t. q * t) (pow-suc 2 k))

-- `(q << k) | r` is a sum when `r` has at most `k` digits.
pub bit_or-eq-add : (k q r : ℕ) → r < 2 ^ k → bit_or (q * 2 ^ k) r ≡ q * 2 ^ k + r
bit_or-eq-add zero q zero h = omega (arith, or_nothing (q * 1) (q * 1) (omega arith))
bit_or-eq-add zero q (suc r) h = absurd (omega arith)
bit_or-eq-add (suc k) q r h =
    ground (arith, or_low (q * 2 ^ suc k) r, doubled q k, pow-suc 2 k, bit_or-eq-add k q (r / 2))

and_below : (k q r m : ℕ) → r < 2 ^ k → m + 1 ≡ 2 ^ k → bit_and (q * 2 ^ k + r) m ≡ r
and_below zero q zero zero h e = omega (arith, and_nothing (q * 1 + 0) (q * 1 + 0) (omega arith))
and_below zero q r (suc m) h e = absurd (omega arith)
and_below zero q (suc r) zero h e = absurd (omega arith)
and_below (suc k) q r m h e = ground (
  arith,
  and_low (q * 2 ^ suc k + r) m,
  doubled q k,
  pow-suc 2 k,
  one-le-pow k 2,
  and_below k q (r / 2) (m / 2),
)

-- `a & (2^k - 1)`, for a mask `m` of `k` ones.
pub bit_and-eq-mod : (k a m : ℕ) → m + 1 ≡ 2 ^ k → bit_and a m ≡ a % 2 ^ k
bit_and-eq-mod k a m e = ground (arith, one-le-pow k 2, and_below k (a / 2 ^ k) (a % 2 ^ k) m)

or_comm_below : (n a b : ℕ) → a ≤ n → b ≤ n → bit_or a b ≡ bit_or b a
or_comm_below zero zero zero p q = refl
or_comm_below zero zero (suc b) p q = elim q [ ]
or_comm_below zero (suc a) b p q = elim p [ ]
or_comm_below (suc n) a b p q =
    omega
      (arith, or_low a b, or_low b a, or_comm_below n (a / 2) (b / 2) (omega arith) (omega arith))

pub bit_or_comm : (a b : ℕ) → bit_or a b ≡ bit_or b a
bit_or_comm a b = or_comm_below (a + b) a b (omega arith) (omega arith)

pub pow-add : (a b : ℕ) → 2 ^ (a + b) ≡ 2 ^ a * 2 ^ b
pow-add zero b = let e : 0 + b ≡ b = omega arith in ap (λ k. 2 ^ k) e ∙ omega arith
pow-add (suc a) b =
    let regroup : suc a + b ≡ suc (a + b) = omega arith in
    ap (λ k. 2 ^ k) regroup
    ∙ omega (arith, pow-suc 2 (a + b), pow-suc 2 a, pow-add a b, ap (λ k. k * 2 ^ b) (pow-suc 2 a))
