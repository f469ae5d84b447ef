-- ===== src/BigInt/Quotient/Rounded.antt =====
-- `operator/` ends within its rounds, at the quotient rounded towards 0.
use native.Mathlib.Nat.{mul-le-mul_left, pow-suc}
use csf.Base.{
  ℕ, zero, suc, ◌+◌, ◌*◌, ◌^◌, ◌≤◌, ◌<◌, true, false, List, [], ◌∷◌, ◌≡◌, refl, ap, ◌∙◌, arith,
  if◌then◌else◌, differ, length, dec_lt, ltb,
}
use csf.BigInt.{BigInt, of_word, is_zero, all_zero, compare_magnitudes, is_lt}
use csf.BigInt.Value.{value, IsWords, all_zero-value}
use csf.BigInt.Quotient.{bisect, rounds, unsigned, divide, quotient}
use csf.BigInt.Quotient.Step.{IsNat, zero-IsNat}
use csf.BigInt.Quotient.Search.{IsQuotient, Found, compare-IsNat, bisect-Found}

word_more : (s : ℕ) → 2 ^ (s + 64) ≡ 2 ^ 64 * 2 ^ s
word_more zero = refl
word_more (suc s) =
    let regroup : suc s + 64 ≡ suc (s + 64) = omega arith in
    ap (λ k. 2 ^ k) regroup ∙ omega (arith, pow-suc 2 (s + 64), pow-suc 2 s, word_more s)

-- The numbers of `n` words are below `2 ^ (64 n)`.
pub value-lt-pow : (ws : List ℕ) → IsWords ws → value ws < 2 ^ (64 * length ws)
value-lt-pow [] h = omega arith
value-lt-pow (w ∷ ws) h =
    let regroup : 64 * suc (length ws) ≡ 64 * length ws + 64 = omega arith in
    omega (arith, ap (λ k. 2 ^ k) regroup, word_more (64 * length ws), value-lt-pow ws h.1)

-- The search from 0 to `top` has enough rounds.
search-Found :
    (top bottom : BigInt) (t d : ℕ)
    → IsNat top t
    → IsNat bottom d
    → 0 < d
    → Found t d (bisect (rounds top) top bottom (of_word 0 false) top)
unfolding rounds
search-Found top bottom t d p q pos =
    let n = 64 * length top.magnitude in
    let below : t * 1 ≤ t * d = mul-le-mul_left t pos in
    bisect-Found top bottom t d p q pos (suc n) (of_word 0 false) top 0 t
      (record {
        is_low = zero-IsNat;
        is_high = p;
        from_below = omega arith;
        from_above = omega arith;
      })
      (omega (arith, pow-suc 2 n, value-lt-pow top.magnitude p.words, p.amount))

-- `operator/` returns, for any divisor but 0: the magnitude is the quotient of the magnitudes
-- rounded down, and the sign is the product of the signs, or plus where the dividend is smaller.
pub divide_lem :
    (a b : BigInt)
    → IsWords a.magnitude
    → IsWords b.magnitude
    → 0 < value b.magnitude
    → (q : BigInt) × (divide a b ≡ quotient q)
      × IsQuotient (value a.magnitude) (value b.magnitude) q
      × (q.sign
          ≡ (if ltb (value a.magnitude) (value b.magnitude) then false else differ a.sign b.sign))
unfolding divide of_word is_zero
divide_lem a b ha hb pos =
    let t = value a.magnitude in
    let d = value b.magnitude in
    let top : IsNat (unsigned a) t = record { amount = refl; words = ha; positive = refl } in
    let bottom : IsNat (unsigned b) d = record { amount = refl; words = hb; positive = refl } in
    let some_b : all_zero b.magnitude ≡ false = ground (arith, all_zero-value b.magnitude) in
    let order = compare-IsNat (unsigned a) (unsigned b) top bottom in
    let found = search-Found (unsigned a) (unsigned b) t d top bottom pos in
    elim (dec_lt t d) [
      | yes lt ↦
          let less : is_lt (compare_magnitudes (unsigned a) (unsigned b)) ≡ true =
            ground (arith, order) in
          (
            of_word 0 false,
            rw (some_b, less) refl,
            record { lower = omega arith; upper = omega arith; words = (omega arith, tt) },
            ground arith,
          )
      | no ge ↦
          let not_less : is_lt (compare_magnitudes (unsigned a) (unsigned b)) ≡ false =
            ground (arith, order) in
          (
            record found.q { sign = differ a.sign b.sign },
            rw (some_b, not_less, found.returns) refl,
            record {
              lower = found.correct.lower;
              upper = found.correct.upper;
              words = found.correct.words;
            },
            ground arith,
          )
    ]
