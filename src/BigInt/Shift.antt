-- ===== src/BigInt/Shift.antt =====
-- csf_assign01/bigint.cpp: `operator<<`.
-- The slots of `result.magnitude` are 0 before the loop, and each is written once, so the list
-- holds what is stored: the words below `words_shifted` stay 0, and the slot past the loop takes
-- the buffer, 0 or not.
pub mod Power
use csf.Base.{
  ℕ, ◌+◌, ◌-◌, ◌*◌, ◌/◌, ◌%◌, bit_or, false, List, [], ◌∷◌, ◌++◌, Option, none, some, ◌==◌,
  if◌then◌else◌, replicate, u64, ◌<<<◌, ◌>>>◌,
}
use csf.BigInt.{BigInt, trim}

pub shift_words : ℕ → List ℕ → ℕ → List ℕ
shift_words bits_shifted [] buffer = buffer ∷ []
shift_words bits_shifted (word ∷ ws) buffer =
    let stored = bit_or (u64 (word <<< bits_shifted)) buffer in
    let buffer' = if bits_shifted == 0 then 0 else word >>> (64 - bits_shifted) in
    stored ∷ shift_words bits_shifted ws buffer'

-- `none` is the `std::invalid_argument` thrown for a negative value.
pub left_shift : BigInt → ℕ → Option BigInt
left_shift x n =
    let words = replicate (n / 64) 0 ++ shift_words (n % 64) x.magnitude 0 in
    if x.sign then none else some (record { magnitude = trim words; sign = false })
