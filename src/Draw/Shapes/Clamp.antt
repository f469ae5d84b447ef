-- ===== src/Draw/Shapes/Clamp.antt =====
-- The clamped ranges of a rectangle's and a circle's loops, along one axis of an image.
use csf.Base.{
  ℕ, ◌-◌, ◌^◌, ◌<◌, ◌≤◌, ◌≡◌, refl, ◌∙◌, Bool, Bool-cases, inl, inr, true, ◌&&◌, arith, ltb, leb,
  if◌then◌else◌,
}
use csf.Base.Int.{ℤ, pos, negsuc, ◌+ℤ◌, ◌-ℤ◌}
use csf.Draw.Shapes.{leb_ℤ, rounds, at_least_0, at_most, below}
use csf.Draw.Shapes.Paint.{within}

-- The integers of an `int32_t`.
abbrev pub is_i32 : ℤ → Bool
is_i32 (pos n) = ltb n (2 ^ 31)
is_i32 (negsuc n) = ltb n (2 ^ 31)

at_most_pos :
    (m w : ℕ) → m < 2 ^ 31 → w < 2 ^ 31 → at_most (pos m) w ≡ (if ltb w m then pos w else pos m)
unfolding at_most
at_most_pos m w hm hw = ground arith

at_most_neg : (m w : ℕ) → m < 2 ^ 31 → w < 2 ^ 31 → at_most (negsuc m) w ≡ pos w
unfolding at_most
at_most_neg m w hm hw = ground arith

-- A range whose upper end is not negative is cut to the axis.
pub range_lem :
    (x : ℤ) (m w i : ℕ)
    → m < 2 ^ 31
    → w < 2 ^ 31
    → i < w
    → within (at_least_0 x) (rounds (at_least_0 x) (at_most (pos m) w)) (pos i)
      ≡ (leb_ℤ x (pos i) && ltb i m)
unfolding at_least_0 rounds ◌-ℤ◌
range_lem (pos a) m w i hm hw hi = rw (at_most_pos m w hm hw) (ground arith)
range_lem (negsuc a) m w i hm hw hi = rw (at_most_pos m w hm hw) (ground arith)

-- One that ends below 0 is not cut, but runs over the whole axis.
pub whole_range_lem :
    (a m w i : ℕ)
    → m < 2 ^ 31
    → w < 2 ^ 31
    → i < w
    → within (at_least_0 (negsuc a)) (rounds (at_least_0 (negsuc a)) (at_most (negsuc m) w)) (pos i)
      ≡ true
unfolding at_least_0 rounds ◌-ℤ◌
whole_range_lem a m w i hm hw hi = rw (at_most_neg m w hm hw) (ground arith)

below_pos :
    (m w : ℕ)
    → m < 2 ^ 31
    → w < 2 ^ 31
    → 0 < w
    → below (pos m) w ≡ (if leb w m then pos (w - 1) else pos m)
unfolding below
below_pos m w hm hw h = ground arith

below_neg : (m w : ℕ) → m < 2 ^ 31 → w < 2 ^ 31 → 0 < w → below (negsuc m) w ≡ pos (w - 1)
unfolding below
below_neg m w hm hw h = ground arith

-- The loop of a circle covers every place of the axis that lies between its ends.
pub circle_range_lem :
    (lo hi : ℤ) (w i : ℕ)
    → is_i32 hi ≡ true
    → w < 2 ^ 31
    → i < w
    → leb_ℤ lo (pos i) ≡ true
    → leb_ℤ (pos i) hi ≡ true
    → within (at_least_0 lo) (rounds (at_least_0 lo) (below hi w +ℤ pos 1)) (pos i) ≡ true
unfolding at_least_0 rounds ◌-ℤ◌ ◌+ℤ◌
circle_range_lem lo (pos m) w i h hw hi p q =
    rw (below_pos m w (ground arith) hw (omega arith)) (ground arith)
circle_range_lem lo (negsuc m) w i h hw hi p q =
    rw (below_neg m w (ground arith) hw (omega arith)) (ground arith)

range_ends :
    (a k i : ℕ)
    → within (pos a) (rounds (pos a) (pos k +ℤ pos 1)) (pos i) ≡ true
    → (a ≤ i) × (i ≤ k)
unfolding rounds ◌-ℤ◌ ◌+ℤ◌
range_ends a k i e = (ground arith, ground arith)

below_least :
    (m w : ℕ) → m < 2 ^ 31 → w < 2 ^ 31 → 0 < w → (k : ℕ) × (below (pos m) w ≡ pos k) × (k ≤ m)
below_least m w hm hw h = elim (Bool-cases (leb w m)) [
  | inl e ↦ (w - 1, below_pos m w hm hw h ∙ rw e refl, ground arith)
  | inr e ↦ (m, below_pos m w hm hw h ∙ rw e refl, omega arith)
]

at_least_0-pos : (a : ℕ) → at_least_0 (pos a) ≡ pos a
unfolding at_least_0
at_least_0-pos a = ground arith

at_least_0-negsuc : (a : ℕ) → at_least_0 (negsuc a) ≡ pos 0
unfolding at_least_0
at_least_0-negsuc a = ground arith

-- And it covers no other, where it does not end below 0.
pub circle_range_ends :
    (lo : ℤ) (m w i : ℕ)
    → m < 2 ^ 31
    → w < 2 ^ 31
    → i < w
    → within (at_least_0 lo) (rounds (at_least_0 lo) (below (pos m) w +ℤ pos 1)) (pos i) ≡ true
    → (leb_ℤ lo (pos i) ≡ true) × (i ≤ m)
circle_range_ends (pos a) m w i hm hw hi e =
    let (k, f, l) = below_least m w hm hw (omega arith) in
    let r = range_ends a k i (rw (at_least_0-pos a, f) at e) in
    (ground arith, omega (arith, r.1, l))
circle_range_ends (negsuc a) m w i hm hw hi e =
    let (k, f, l) = below_least m w hm hw (omega arith) in
    let r = range_ends 0 k i (rw (at_least_0-negsuc a, f) at e) in
    (ground arith, omega (arith, r.1, l))
