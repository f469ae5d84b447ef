-- ===== src/BigInt/Quotient.antt =====
-- csf_assign01/bigint.cpp: `operator/`, a binary search for the quotient.
-- The `while` loop has as many rounds as `rounds` gives: `Quotient.Rounded` proves them enough.
pub mod Step
pub mod Search
pub mod Rounded
use csf.Base.{
  ℕ, zero, suc, ◌+◌, ◌*◌, Option, none, some, Ordering, if◌then◌else◌, differ, Bool, false, length,
  List,
}
use csf.BigInt.{BigInt, of_word, is_zero, compare_magnitudes, is_lt, plus, minus}
use csf.BigInt.Product.{times, div_by_2}

abbrev pub unsigned : BigInt → BigInt
unsigned x = record x { sign = false }

-- `none` when the rounds run out.
unfoldable pub bisect : ℕ → BigInt → BigInt → BigInt → BigInt → Option BigInt
bisect zero top bottom low high = none
bisect (suc n) top bottom low high =
    let mid = div_by_2 (plus low high) in
    elim (compare_magnitudes low high) [
      | Ordering.gt ↦ some high
      | _ ↦ elim (compare_magnitudes (times mid bottom) top) [
        | Ordering.eq ↦ some mid
        | Ordering.lt ↦ bisect n top bottom (plus mid (of_word 1 false)) high
        | Ordering.gt ↦ bisect n top bottom low (minus mid (of_word 1 false))
      ]
    ]

unfoldable pub rounds : BigInt → ℕ
rounds top = suc (suc (64 * length top.magnitude))

pub data Division : Type 0 where
  quotient : BigInt → Division
  divide_by_zero : Division
  out_of_rounds : Division

-- The sign is set on the value that the loop returns, at either `return`.
abbrev pub with_sign : Bool → Option BigInt → Division
with_sign s none = out_of_rounds
with_sign s (some q) = quotient (record q { sign = s })

unfoldable pub divide : BigInt → BigInt → Division
divide a b =
    let top = unsigned a in
    let bottom = unsigned b in
    let found = bisect (rounds top) top bottom (of_word 0 false) top in
    if is_zero b
    then divide_by_zero
    else if is_lt (compare_magnitudes top bottom)
    then quotient (of_word 0 false)
    else with_sign (differ a.sign b.sign) found
