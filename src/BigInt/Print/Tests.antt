-- ===== src/BigInt/Print/Tests.antt =====
-- Printed integers, and the theorems at inputs that meet their hypotheses.
use csf.Base.{◌≡◌, refl, ◌^◌, ◌*◌, ◌+◌, some, [], ◌∷◌, arith, true}
use csf.Base.Text.{Text, codes}
use csf.Base.Int.{negsuc}
use csf.BigInt.{BigInt, all_zero, is_zero}
use csf.BigInt.Print.{word_hex, words_hex, skip_zeros, to_hex, to_dec}
use csf.BigInt.Print.Hex.{of_hex, is_shortest, digits_of, to_hex_lem}
use csf.BigInt.Print.Dec.{of_dec, to_dec_lem}

-- -(26 * 2 ^ 64 + 15)
abbrev negative : BigInt
negative = record { magnitude = 15 ∷ 26 ∷ []; sign = true }

hex_of_negative : to_hex negative ≡ codes "-1a000000000000000f"
unfolding to_hex is_zero all_zero words_hex word_hex skip_zeros
hex_of_negative = refl

to_hex_lem_example :
    (of_hex (to_hex negative) ≡ some (negsuc (26 * 2 ^ 64 + 14)))
    × (is_shortest (digits_of (to_hex negative)) ≡ true)
to_hex_lem_example = to_hex_lem negative (omega arith)

to_dec_lem_example :
    (s : Text) × (to_dec negative ≡ some s) × (of_dec s ≡ some (negsuc (26 * 2 ^ 64 + 14)))
to_dec_lem_example = to_dec_lem negative (omega arith)
