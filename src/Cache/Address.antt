-- ===== src/Cache/Address.antt =====
-- `parse_address` takes an address apart into block offset, set index and tag.
use native.Mathlib.Nat.{
  pow-suc, one-le-pow, div-add-mod', mod-lt, pow-le-pow_right, div-div-eq-div-mul,
}
use csf.Base.{
  ℕ, zero, suc, ◌+◌, ◌-◌, ◌*◌, ◌/◌, ◌%◌, ◌^◌, ◌≤◌, ◌<◌, bit_and, ◌≡◌, refl, sym, ap, ◌∙◌, arith,
  u32, ◌<<<◌,
}
use csf.Base.Bits.{bit_and-eq-mod, pow-add}
use csf.Cache.{Cache, ctz, parse_address}

-- The trailing zeros of a power of 2.
ctz-pow : (n k : ℕ) → k < n → ctz n (2 ^ k) ≡ k
unfolding ctz
ctz-pow zero k h = elim h [ ]
ctz-pow (suc n) zero h = refl
ctz-pow (suc n) (suc k) h =
    let half : 2 ^ suc k / 2 ≡ 2 ^ k = omega (arith, pow-suc 2 k) in
    ground (arith, pow-suc 2 k, ap (ctz n) half, ctz-pow n k)

-- For powers of 2 the set index is in range, and the block number is made up of tag and index.
pub parse_address_lem :
    (config : Cache) (addr i j : ℕ)
    → config.block_size ≡ 2 ^ i
    → config.num_sets ≡ 2 ^ j
    → i < 32
    → j < 32
    → let (set_idx, tag) = parse_address config addr in
      (set_idx < config.num_sets) × (tag * config.num_sets + set_idx ≡ addr / config.block_size)
unfolding parse_address
parse_address_lem config addr i j ei ej hi hj =
    let block : ctz 32 config.block_size ≡ i = ap (ctz 32) ei ∙ ctz-pow 32 i hi in
    let sets : ctz 32 config.num_sets ≡ j = ap (ctz 32) ej ∙ ctz-pow 32 j hj in
    let small : 2 ^ j ≤ 2 ^ 31 = pow-le-pow_right (omega arith) {i = j} {j = 31} (omega arith) in
    let positive : 0 < 2 ^ j = one-le-pow j 2 (omega arith) in
    let number = addr / 2 ^ i in
    let index : bit_and number (u32 (1 <<< j) - 1) ≡ number % 2 ^ j =
      bit_and-eq-mod j number (u32 (1 <<< j) - 1) (omega arith) in
    let tag : addr / 2 ^ (i + j) ≡ number / 2 ^ j =
      ap (λ k. addr / k) (pow-add i j) ∙ sym (div-div-eq-div-mul addr (2 ^ i) (2 ^ j)) in
    rw (block, sets, ei, ej, index, tag) (mod-lt number positive, div-add-mod' number (2 ^ j))
