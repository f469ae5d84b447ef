-- ===== src/BigInt/Comparison.antt =====
-- The comparison operators of bigint.h.
use csf.Base.{◌≡◌, ◌↔◌, refl, Bool, true, false, not, arith, Ordering}
use csf.Base.Int.{ℤ, pos, negsuc, ◌≤ℤ◌}
use csf.BigInt.{BigInt, compare}
use csf.BigInt.Value.{IsWords, to_ℤ}
use csf.BigInt.Order.{compare_ℤ, compare-compare_ℤ}

abbrev is_lt : Ordering → Bool
is_lt Ordering.lt = true
is_lt _ = false

abbrev is_eq : Ordering → Bool
is_eq Ordering.eq = true
is_eq _ = false

abbrev is_gt : Ordering → Bool
is_gt Ordering.gt = true
is_gt _ = false

-- The six operators, by the sign of what `compare` returns.
unfoldable pub equal : BigInt → BigInt → Bool
equal a b = is_eq (compare a b)

unfoldable pub not_equal : BigInt → BigInt → Bool
not_equal a b = not (is_eq (compare a b))

unfoldable pub less : BigInt → BigInt → Bool
less a b = is_lt (compare a b)

unfoldable pub less_equal : BigInt → BigInt → Bool
less_equal a b = not (is_gt (compare a b))

unfoldable pub greater : BigInt → BigInt → Bool
greater a b = is_gt (compare a b)

unfoldable pub greater_equal : BigInt → BigInt → Bool
greater_equal a b = not (is_lt (compare a b))

-- The operators against the integers.
pub record IsOrdered (a b : BigInt) : Type 0 where
  pub eq : (equal a b ≡ true) ↔ (to_ℤ a ≡ to_ℤ b)
  pub ne : not_equal a b ≡ not (equal a b)
  pub le : (less_equal a b ≡ true) ↔ (to_ℤ a ≤ℤ to_ℤ b)
  pub ge : (greater_equal a b ≡ true) ↔ (to_ℤ b ≤ℤ to_ℤ a)
  pub lt : less a b ≡ not (greater_equal a b)
  pub gt : greater a b ≡ not (less_equal a b)

eq_lem : (x y : ℤ) → (is_eq (compare_ℤ x y) ≡ true) ↔ (x ≡ y)
eq_lem (pos m) (pos n) = ground arith
eq_lem (pos m) (negsuc n) = ground arith
eq_lem (negsuc m) (pos n) = ground arith
eq_lem (negsuc m) (negsuc n) = ground arith

le_lem : (x y : ℤ) → (not (is_gt (compare_ℤ x y)) ≡ true) ↔ (x ≤ℤ y)
le_lem x y = ground arith

ge_lem : (x y : ℤ) → (not (is_lt (compare_ℤ x y)) ≡ true) ↔ (y ≤ℤ x)
ge_lem x y = ground arith

not_twice : (b : Bool) → b ≡ not (not b)
not_twice true = refl
not_twice false = refl

-- For vectors of 64-bit words, with leading zeros and a negative zero or not, the six comparison operators
-- are those of the integers.
pub operators-IsOrdered : (a b : BigInt) → IsWords a.magnitude → IsWords b.magnitude → IsOrdered a b
unfolding equal not_equal less less_equal greater greater_equal
operators-IsOrdered a b ha hb =
    let c = compare-compare_ℤ a b ha hb in
    let x = to_ℤ a in
    let y = to_ℤ b in
    record {
      eq = rw c (eq_lem x y);
      ne = refl;
      le = rw c (le_lem x y);
      ge = rw c (ge_lem x y);
      lt = not_twice (is_lt (compare a b));
      gt = not_twice (is_gt (compare a b));
    }
