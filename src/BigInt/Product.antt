-- ===== src/BigInt/Product.antt =====
-- csf_assign01/bigint.cpp: `operator*` and `div_by_2`.
-- `product` is a `__uint128_t`; the list of a loop is `result.magnitude` from the loop's index on.
pub mod Rows
pub mod Halve
use csf.Base.{
  ℕ, zero, suc, ◌+◌, ◌*◌, ◌/◌, ◌%◌, ◌^◌, bit_and, bit_or, List, [], ◌∷◌, ◌||◌, if◌then◌else◌,
  differ, length, replicate, u64, ◌<<<◌, ◌>>>◌, false,
}
use csf.BigInt.{BigInt, of_word, first, rest, is_zero, trim}

-- The loop over `j`: the words of `rhs` left, and the carry.
unfoldable pub mul_row : ℕ → List ℕ → List ℕ → ℕ → List ℕ
mul_row a bs [] carry = []
mul_row a [] (r ∷ rs) carry = u64 (r + carry) ∷ rs
mul_row a (b ∷ bs) (r ∷ rs) carry =
    let product = (a * b + r + carry) % 2 ^ 128 in
    bit_and product 0xffff_ffff_ffff_ffff ∷ mul_row a bs rs (u64 (product >>> 64))

-- The loop over `i`: the words of `*this` left.
unfoldable pub mul_rows : List ℕ → List ℕ → List ℕ → List ℕ
mul_rows [] bs rs = rs
mul_rows (a ∷ as') bs rs = let row = mul_row a bs rs 0 in first row ∷ mul_rows as' bs (rest row)

unfoldable pub times : BigInt → BigInt → BigInt
times a b =
    let xs = a.magnitude in
    let ys = b.magnitude in
    if is_zero a || is_zero b then of_word 0 false else (record {
      magnitude = trim (mul_rows xs ys (replicate (length xs + length ys) 0));
      sign = differ a.sign b.sign;
    })

-- The loop of `div_by_2` goes down from the top word: the words, and the carry out of the lowest.
unfoldable pub halve : List ℕ → List ℕ × ℕ
halve [] = ([], 0)
halve (current ∷ ws) =
    let (higher, carry) = halve ws in
    (bit_or (current >>> 1) (u64 (carry <<< 63)) ∷ higher, bit_and current 1)

unfoldable pub div_by_2 : BigInt → BigInt
div_by_2 x = record { magnitude = trim (halve x.magnitude).0; sign = x.sign }
