-- ===== src/BigInt/Tests.antt =====
-- Runs of the BigInt operations at small inputs, and the theorems at inputs that meet their
-- hypotheses.
use csf.Base.{◌+◌, ◌-◌, ◌*◌, ◌^◌, true, false, [], ◌∷◌, none, some, ◌≡◌, refl, arith, inr, Ordering}
use csf.Base.Int.{◌+ℤ◌, ◌-ℤ◌, ◌*ℤ◌}
use csf.BigInt.{
  BigInt, of_word, get_bits, is_bit_set, all_zero, is_zero, trim, trim_loop, negate,
  kill_leading_zeros, count_loop, compare_loop, compare_magnitudes, compare, add_words, sub_words,
  plus_same_sign, minus_same_sign, plus_by, minus_by, plus, minus,
}
use csf.BigInt.Value.{value, IsWords, to_ℤ}
use csf.BigInt.Sum.{sub_words_lost_borrow}
use csf.BigInt.Comparison.{IsOrdered, operators-IsOrdered}
use csf.BigInt.Signs.{IsPlain, negate-leading_zero, minus_lem, plus_lem}
use csf.BigInt.Shift.{left_shift}
use csf.BigInt.Shift.Power.{left_shift_lem}
use csf.BigInt.Product.{mul_row, mul_rows, times, halve, div_by_2}
use csf.BigInt.Product.Rows.{times_lem}
use csf.BigInt.Quotient.{bisect, rounds, divide, quotient, divide_by_zero}
use csf.BigInt.Quotient.Search.{IsQuotient}
use csf.BigInt.Quotient.Rounded.{divide_lem}

-- 3 * 2 ^ 64 + 5
abbrev large : BigInt
large = record { magnitude = 5 ∷ 3 ∷ []; sign = false }

-- -7
abbrev minus_seven : BigInt
minus_seven = record { magnitude = 7 ∷ []; sign = true }

-- 9 with a zero word on top
abbrev padded : BigInt
padded = record { magnitude = 9 ∷ 0 ∷ []; sign = false }

large-IsPlain : IsPlain large
large-IsPlain = record { words = omega arith; top = inr (omega arith); no_ones = omega arith }

minus_seven-IsPlain : IsPlain minus_seven
minus_seven-IsPlain = record { words = omega arith; top = inr (omega arith); no_ones = tt }

-- 5 - 7 borrows from the word above.
plus_borrows : plus large minus_seven ≡ record { magnitude = (2 ^ 64 - 2) ∷ 2 ∷ []; sign = false }
unfolding plus plus_by minus minus_by negate is_zero all_zero minus_same_sign compare_magnitudes
    kill_leading_zeros count_loop compare_loop sub_words trim trim_loop
plus_borrows = refl

compare_signs : compare minus_seven large ≡ Ordering.lt
unfolding compare is_zero all_zero
compare_signs = refl

bits :
    (get_bits large 1 ≡ 3)
    × (get_bits large 2 ≡ 0)
    × (is_bit_set large 65 ≡ true)
    × (is_bit_set large 66 ≡ false)
unfolding get_bits is_bit_set
bits = (refl, refl, refl, refl)

times_small : times minus_seven large ≡ record { magnitude = 35 ∷ 21 ∷ []; sign = true }
unfolding times is_zero all_zero mul_rows mul_row trim trim_loop
times_small = refl

divide_small :
    divide minus_seven (of_word 2 false) ≡ quotient (record { magnitude = 3 ∷ []; sign = true })
unfolding divide bisect rounds is_zero all_zero of_word compare_magnitudes kill_leading_zeros
    count_loop compare_loop plus plus_by plus_same_sign add_words minus minus_by minus_same_sign
    sub_words times mul_rows mul_row trim trim_loop div_by_2 halve
divide_small = refl

divide_refused : divide large (of_word 0 false) ≡ divide_by_zero
unfolding divide is_zero all_zero of_word
divide_refused = refl

plus_lem_example : to_ℤ (plus large minus_seven) ≡ to_ℤ large +ℤ to_ℤ minus_seven
plus_lem_example = plus_lem large minus_seven large-IsPlain minus_seven-IsPlain

minus_lem_example : to_ℤ (minus large minus_seven) ≡ to_ℤ large -ℤ to_ℤ minus_seven
minus_lem_example = minus_lem large minus_seven large-IsPlain minus_seven-IsPlain

times_lem_example : to_ℤ (times large minus_seven) ≡ to_ℤ large *ℤ to_ℤ minus_seven
times_lem_example = times_lem large minus_seven (omega arith) (omega arith)

operators-IsOrdered_example : IsOrdered large minus_seven
operators-IsOrdered_example = operators-IsOrdered large minus_seven (omega arith) (omega arith)

negate-leading_zero_example :
    (value (negate padded).magnitude ≡ 2 ^ 64 * 9) × ((negate padded).sign ≡ true)
negate-leading_zero_example = negate-leading_zero padded (omega arith) refl

sub_words_lost_borrow_example :
    value (sub_words (0 ∷ 5 ∷ 1 ∷ []) (1 ∷ (2 ^ 64 - 1) ∷ []) 0) + (2 ^ 128 - 2 ^ 64 + 1)
    ≡ 2 ^ 128 + 5 * 2 ^ 64 + 2 ^ 128
sub_words_lost_borrow_example =
    sub_words_lost_borrow 0 1 5 (1 ∷ []) [] (omega arith) (omega arith) (omega arith) tt tt
      (omega arith) (omega arith)

left_shift_lem_example :
    (large.sign ≡ true → left_shift large 70 ≡ none)
    × (large.sign ≡ false
        → (y : BigInt) × (left_shift large 70 ≡ some y)
          × (value y.magnitude ≡ value large.magnitude * 2 ^ 70)
          × IsWords y.magnitude
          × (y.sign ≡ false))
left_shift_lem_example = left_shift_lem large 70 (omega arith)

divide_lem_example :
    (q : BigInt) × (divide large minus_seven ≡ quotient q)
    × IsQuotient (value large.magnitude) 7 q
    × (q.sign ≡ true)
divide_lem_example = divide_lem large minus_seven (omega arith) (omega arith) (omega arith)
