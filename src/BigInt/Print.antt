-- ===== src/BigInt/Print.antt =====
-- csf_assign01/bigint.cpp: `to_hex` and `to_dec`. A string stream is the text that was written to it.
-- `int zero_counter` counts exactly here, which holds below 2^31 digits.
mod Tests
pub mod Hex
pub mod Remainder
pub mod Dec
use mathlib.Core.List.{reverse}
use csf.Base.{
  ℕ, zero, suc, ◌+◌, ◌*◌, bit_and, Bool, true, false, ◌||◌, List, [], ◌∷◌, ◌++◌, Option, none, some,
  length, get_or, ◌==◌, if◌then◌else◌, ◌>>>◌,
}
use csf.Base.Text.{Text, codes, print}
use csf.BigInt.{BigInt, of_word, is_zero, minus, first}
use csf.BigInt.Product.{times}
use csf.BigInt.Quotient.{unsigned, Division, quotient, divide_by_zero, out_of_rounds, divide}

abbrev pub hexcodes : Text
hexcodes = codes "0123456789abcdef"

-- `for (int chunk4 = 60; chunk4 >= 0; chunk4 -= 4)`, by the rounds that are left.
unfoldable pub word_hex : ℕ → ℕ → Text
word_hex zero val64 = []
word_hex (suc n) val64 =
    let bit_base16 = bit_and (val64 >>> (4 * n)) 15 in
    get_or hexcodes bit_base16 0 ∷ word_hex n val64

-- The words from the last to the first.
unfoldable pub words_hex : List ℕ → Text
words_hex [] = []
words_hex (w ∷ ws) = words_hex ws ++ word_hex 16 w

-- `hex_str.substr(zero_counter)`: the last character is never skipped.
unfoldable pub skip_zeros : Text → Text
skip_zeros [] = []
skip_zeros (c ∷ []) = c ∷ []
skip_zeros (c ∷ d ∷ s) = let rest = skip_zeros (d ∷ s) in if c == b'0' then rest else c ∷ d ∷ s

abbrev pub with_minus : Bool → Text → Text
with_minus sign s = if sign then b'-' ∷ s else s

unfoldable pub to_hex : BigInt → Text
to_hex x =
    if length x.magnitude == 0 || is_zero x
    then codes "0"
    else with_minus x.sign (skip_zeros (words_hex x.magnitude))

-- `std::to_string` of a `uint64_t`, which has 20 digits at most.
abbrev pub to_string_u64 : ℕ → Text
to_string_u64 n = print 20 n []

abbrev pub ten : BigInt
ten = of_word 10 false

-- The loop of `to_dec`, with the digits written so far. `none` when the rounds run out, or where
-- `operator/` fails.
unfoldable pub dec_digits : ℕ → BigInt → Text → Option Text
dec_digits zero num digits = none
dec_digits (suc fuel) num digits = if is_zero num then some digits else elim (divide num ten) [
  | quotient ans ↦
      let remainder = minus num (times ans ten) in
      dec_digits fuel ans (digits ++ to_string_u64 (first remainder.magnitude))
  | divide_by_zero ↦ none
  | out_of_rounds ↦ none
]

-- As many rounds as the words have bits, and one to see the 0.
unfoldable pub dec_rounds : BigInt → ℕ
dec_rounds x = suc (64 * length x.magnitude)

abbrev pub finish_dec : Bool → Option Text → Option Text
finish_dec sign none = none
finish_dec sign (some digits) = some (with_minus sign (reverse digits))

unfoldable pub to_dec : BigInt → Option Text
to_dec x =
    if is_zero x
    then some (codes "0")
    else finish_dec x.sign (dec_digits (dec_rounds x) (unsigned x) [])
