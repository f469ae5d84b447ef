-- ===== src/BigInt/Shift/Power.antt =====
-- `operator<<` multiplies by a power of 2.
use native.Mathlib.Nat.{
  div-add-mod, mod-lt, one-le-pow, mul-le-mul_right, suc-mul, div-lt_iff_lt-mul,
}
use csf.Base.{
  ℕ, zero, suc, ◌+◌, ◌-◌, ◌*◌, ◌/◌, ◌%◌, ◌^◌, ◌≤◌, ◌<◌, bit_or, true, false, Bool-cases, inl, inr,
  List, [], ◌∷◌, ◌++◌, none, some, ◌≡◌, refl, ap, ◌∙◌, sym, arith, ◌==◌, if◌then◌else◌, replicate,
  u64, ◌<<<◌, ◌>>>◌,
}
use csf.Base.Bits.{bit_or-eq-add, pow-add}
use csf.BigInt.{BigInt, trim}
use csf.BigInt.Value.{value, IsWords, trim-IsTrimmed}
use csf.BigInt.Shift.{shift_words, left_shift}

-- A word shifted by `b` bits: what stays in the word, and what goes over to the next.
module _ (b : ℕ) (fits : b < 64) where
  split : 2 ^ (64 - b) * 2 ^ b ≡ 2 ^ 64
  split = let e : 64 - b + b ≡ 64 = omega arith in sym (pow-add (64 - b) b) ∙ ap (λ k. 2 ^ k) e

  kept : ℕ → ℕ
  kept w = w % 2 ^ (64 - b)

  over : ℕ → ℕ
  over w = w / 2 ^ (64 - b)

  kept_room : (w : ℕ) → kept w * 2 ^ b + 2 ^ b ≤ 2 ^ 64
  unfolding kept
  kept_room w =
      let small = mod-lt w (one-le-pow (64 - b) 2 (omega arith)) in
      omega (arith, mul-le-mul_right (2 ^ b) small, suc-mul (w % 2 ^ (64 - b)) (2 ^ b), split)

  shifted : (w : ℕ) → w * 2 ^ b ≡ kept w * 2 ^ b + 2 ^ 64 * over w
  unfolding kept over
  shifted w = omega (
    arith,
    ap (λ k. k * 2 ^ b) (div-add-mod w (2 ^ (64 - b))),
    ap (λ k. k * (w / 2 ^ (64 - b))) split,
  )

  stored : (w buffer : ℕ) → buffer < 2 ^ b → bit_or (u64 (w <<< b)) buffer ≡ kept w * 2 ^ b + buffer
  stored w buffer small =
      let low : u64 (w * 2 ^ b) ≡ kept w * 2 ^ b =
        omega (arith, shifted w, kept_room w, one-le-pow b 2) in
      ap (λ k. bit_or k buffer) low ∙ bit_or-eq-add b (kept w) buffer small

  abbrev next_buffer : ℕ → ℕ
  next_buffer w = if b == 0 then 0 else w >>> (64 - b)

  next_buffer-over : (w : ℕ) → w < 2 ^ 64 → next_buffer w ≡ over w
  unfolding over
  next_buffer-over w h = elim (Bool-cases (b == 0)) [
    | inl e ↦
        let none_left : b ≡ 0 = ground arith in
        rw e (omega (arith, ap (λ k. w / 2 ^ (64 - k)) none_left))
    | inr e ↦ rw e refl
  ]

  over-lt : (w : ℕ) → w < 2 ^ 64 → over w < 2 ^ b
  unfolding over
  over-lt w h = (div-lt_iff_lt-mul (one-le-pow (64 - b) 2 (omega arith))).1 (omega (arith, split))

  value-shift_words :
      (ws : List ℕ) (buffer : ℕ)
      → IsWords ws
      → buffer < 2 ^ b
      → (value (shift_words b ws buffer) ≡ value ws * 2 ^ b + buffer)
        × IsWords (shift_words b ws buffer)
  unfolding shift_words
  value-shift_words [] buffer h small =
      (omega arith, (omega (arith, one-le-pow b 2, kept_room 0), tt))
  value-shift_words (w ∷ ws) buffer h small =
      let e = next_buffer-over w h.0 in
      let (total, words) = value-shift_words ws (next_buffer w) h.1 (rw e (over-lt w h.0)) in
      (
        omega (arith, total, e, stored w buffer small, shifted w),
        (rw (stored w buffer small) (omega (arith, kept_room w)), words),
      )

value-append_zeros :
    (k : ℕ) (ws : List ℕ)
    → IsWords ws
    → (value (replicate k 0 ++ ws) ≡ value ws * 2 ^ (64 * k)) × IsWords (replicate k 0 ++ ws)
value-append_zeros zero ws h = (omega arith, h)
value-append_zeros (suc k) ws h =
    let (total, words) = value-append_zeros k ws h in
    let regroup : 64 * suc k ≡ 64 + 64 * k = omega arith in
    (
      omega (
        arith,
        total,
        ap (λ n. value ws * 2 ^ n) regroup,
        ap (λ n. value ws * n) (pow-add 64 (64 * k)),
      ),
      (omega arith, words),
    )

-- `x << n` is refused for a negative `x`, and else is the product by 2 ^ n.
pub left_shift_lem :
    (x : BigInt) (n : ℕ)
    → IsWords x.magnitude
    → (x.sign ≡ true → left_shift x n ≡ none)
      × (x.sign ≡ false
          → (y : BigInt) × (left_shift x n ≡ some y)
            × (value y.magnitude ≡ value x.magnitude * 2 ^ n)
            × IsWords y.magnitude
            × (y.sign ≡ false))
unfolding left_shift
left_shift_lem x n h =
    let bits = n % 64 in
    let fits : bits < 64 = omega arith in
    let shifted_words = shift_words bits x.magnitude 0 in
    let (high, high_words) =
      value-shift_words bits fits x.magnitude 0 h (one-le-pow bits 2 (omega arith)) in
    let (total, words) = value-append_zeros (n / 64) shifted_words high_words in
    let trimmed = trim-IsTrimmed (replicate (n / 64) 0 ++ shifted_words) in
    let regroup : n ≡ bits + 64 * (n / 64) = omega arith in
    let power : 2 ^ n ≡ 2 ^ bits * 2 ^ (64 * (n / 64)) =
      ap (λ k. 2 ^ k) regroup ∙ pow-add bits (64 * (n / 64)) in
    (
      λ e. rw e,
      λ e. (
        record { magnitude = trim (replicate (n / 64) 0 ++ shifted_words); sign = false },
        rw e,
        omega (
          arith,
          trimmed.same,
          total,
          ap (λ k. k * 2 ^ (64 * (n / 64))) high,
          ap (λ k. value x.magnitude * k) power,
        ),
        trimmed.words words,
        refl,
      ),
    )
