-- ===== src/BigInt/Product/Halve.antt =====
-- `div_by_2` halves the magnitude.
use csf.Base.{
  ℕ, ◌+◌, ◌*◌, ◌/◌, ◌%◌, ◌^◌, ◌≤◌, ◌<◌, bit_or, List, [], ◌∷◌, ◌≡◌, refl, arith, u64, ◌<<<◌, ◌>>>◌,
}
use csf.Base.Bits.{bit_and-eq-mod, bit_or-eq-add, bit_or_comm}
use csf.BigInt.{BigInt}
use csf.BigInt.Value.{value, IsWords, trim-IsTrimmed}
use csf.BigInt.Product.{halve, div_by_2}

-- The bit carried in stands above the bits that were shifted down.
carried_in :
    (current carry : ℕ)
    → current < 2 ^ 64
    → carry ≤ 1
    → bit_or (current >>> 1) (u64 (carry <<< 63)) ≡ current / 2 + 2 ^ 63 * carry
carried_in current carry h c = ground (
  arith,
  bit_or_comm (current / 2) ((carry * 2 ^ 63) % 2 ^ 64),
  bit_or-eq-add 63 carry (current / 2) (omega arith),
)

record IsHalf (ws : List ℕ) (out : List ℕ × ℕ) : Type 0 where
  total : 2 * value out.0 + out.1 ≡ value ws
  carry : out.1 ≤ 1
  words : IsWords out.0

halve-IsHalf : (ws : List ℕ) → IsWords ws → IsHalf ws (halve ws)
unfolding halve
halve-IsHalf [] h = record { total = refl; carry = omega arith; words = tt }
halve-IsHalf (current ∷ ws) h =
    let ih = halve-IsHalf ws h.1 in
    let low = bit_and-eq-mod 1 current 1 refl in
    let word = carried_in current (halve ws).1 h.0 ih.carry in
    record {
      total = omega (arith, ih.total, low, word);
      carry = omega (arith, low);
      words = (omega (arith, word, ih.carry), ih.words);
    }

-- `div_by_2` rounds down, keeps the sign and leaves words of 64 bits.
pub div_by_2_lem :
    (x : BigInt)
    → IsWords x.magnitude
    → (value (div_by_2 x).magnitude ≡ value x.magnitude / 2)
      × IsWords (div_by_2 x).magnitude
      × ((div_by_2 x).sign ≡ x.sign)
unfolding div_by_2
div_by_2_lem x h =
    let half = halve-IsHalf x.magnitude h in
    let trimmed = trim-IsTrimmed (halve x.magnitude).0 in
    (omega (arith, half.total, half.carry, trimmed.same), trimmed.words half.words, refl)
