-- ===== src/Draw/Shapes/Circle.antt =====
-- Which pixels `draw_circle` paints.
use native.Mathlib.Nat.{mul-le-mul}
use csf.Base.{
  ℕ, ◌+◌, ◌*◌, ◌^◌, ◌≤◌, ◌<◌, ◌≡◌, refl, ◌∙◌, Bool, true, false, not, ◌&&◌, ◌||◌, arith, ltb, ap,
  leb, if◌then◌else◌, Bool-cases, inl, inr,
}
use csf.Base.Int.{ℤ, pos, negsuc, ◌+ℤ◌, ◌-ℤ◌, ltb_ℤ, pos_part, neg_part, ◌≤ℤ◌, int_laws}
use csf.Draw.{Image, blend_colors}
use csf.Draw.Shapes.{leb_ℤ, rounds, at_least_0, below, in_disc, disc_pixel, draw_circle}
use csf.Draw.Shapes.Paint.{within, for_region-Paints}
use csf.Draw.Shapes.Canvas.{IsCanvas, pixel}
use csf.Draw.Shapes.Clamp.{is_i32, circle_range_lem, circle_range_ends}
use csf.Draw.Shapes.Disc.{disc, if_same, pixels-Paints, abs_ℤ, le_test, in_disc-leb, disc-le}

le_of_test : (a b : ℤ) → leb_ℤ a b ≡ true → a ≤ℤ b
le_of_test a b h = ground arith

abs_le : (d : ℤ) (r : ℕ) → pos_part d ≤ r + neg_part d → neg_part d ≤ r + pos_part d → abs_ℤ d ≤ r
abs_le (pos m) r h k = omega arith
abs_le (negsuc m) r h k = omega arith

-- One axis: the loop's range has each place at most `r` away from the middle.
axis_within :
    (x : ℤ) (r w i size : ℕ)
    → size ≡ w
    → size < 2 ^ 31
    → i < w
    → is_i32 (x +ℤ pos r) ≡ true
    → abs_ℤ (x -ℤ pos i) ≤ r
    → within
        (at_least_0 (x -ℤ pos r))
        (rounds (at_least_0 (x -ℤ pos r)) (below (x +ℤ pos r) size +ℤ pos 1))
        (pos i)
      ≡ true
axis_within x r w i size e hs hi hb ha =
    circle_range_lem (x -ℤ pos r) (x +ℤ pos r) size i hb hs (omega arith)
      (le_test (x -ℤ pos r) (pos i) (omega int_laws))
      (le_test (pos i) (x +ℤ pos r) (omega int_laws))

-- The place `(i, j)` is at most `r` away from `(x, y)`.
abbrev pub near : ℤ → ℤ → ℕ → ℕ → ℕ → Bool
near x y r i j =
    let dx = abs_ℤ (x -ℤ pos i) in let dy = abs_ℤ (y -ℤ pos j) in leb (dx * dx + dy * dy) (r * r)

-- One coordinate of a middle: the circle does not end before the image, and its ends are values of
-- `int32_t`.
pub record IsMiddle (x : ℤ) (r : ℕ) : Type 0 where
  pub first : is_i32 (x -ℤ pos r) ≡ true
  pub last : is_i32 (x +ℤ pos r) ≡ true
  pub reaches : pos 0 ≤ℤ x +ℤ pos r

-- The loops of the circle come to `(i, j)`.
abbrev pub comes_to : Image → ℤ → ℤ → ℕ → ℕ → ℕ → Bool
comes_to img x y r i j =
    within (at_least_0 (x -ℤ pos r))
      (rounds (at_least_0 (x -ℤ pos r)) (below (x +ℤ pos r) img.width +ℤ pos 1)) (pos i)
    && within (at_least_0 (y -ℤ pos r))
        (rounds (at_least_0 (y -ℤ pos r)) (below (y +ℤ pos r) img.height +ℤ pos 1)) (pos j)

-- The squares, and the sum of two of them, are values of `int32_t`.
abbrev pub squares_fit : ℤ → ℤ → ℕ → ℕ → ℕ → Bool
squares_fit x y r i j =
    let dx = abs_ℤ (x -ℤ pos i) in
    let dy = abs_ℤ (y -ℤ pos j) in ltb (dx * dx + dy * dy) (2 ^ 31) && ltb (r * r) (2 ^ 31)

pos_of : (z : ℤ) → pos 0 ≤ℤ z → (a : ℕ) × (z ≡ pos a)
pos_of (pos a) h = (a, refl)
pos_of (negsuc a) h = absurd (omega arith)

axis_near :
    (x : ℤ) (r w i : ℕ)
    → IsMiddle x r
    → w < 2 ^ 31
    → i < w
    → within
        (at_least_0 (x -ℤ pos r))
        (rounds (at_least_0 (x -ℤ pos r)) (below (x +ℤ pos r) w +ℤ pos 1))
        (pos i)
      ≡ true
    → abs_ℤ (x -ℤ pos i) ≤ r
axis_near x r w i m hw hi t =
    let (a, e) = pos_of (x +ℤ pos r) m.reaches in
    let small : ltb a (2 ^ 31) ≡ true = rw e at m.last in
    let ends = circle_range_ends (x -ℤ pos r) a w i (ground arith) hw hi (rw e at t) in
    let lo : x -ℤ pos r ≤ℤ pos i = le_of_test (x -ℤ pos r) (pos i) ends.0 in
    let top : pos_part (x +ℤ pos r) ≡ a = ap pos_part e in
    let none_below : neg_part (x +ℤ pos r) ≡ 0 = ap neg_part e in
    abs_le (x -ℤ pos i) r (omega (int_laws, lo, ends.1, top, none_below))
      (omega (int_laws, lo, ends.1, top, none_below))

both_below :
    (m n k : ℕ)
    → m ≤ 1073676289
    → n ≤ 1073676289
    → k ≤ 1073676289
    → (ltb (m + n) (2 ^ 31) && ltb k (2 ^ 31)) ≡ true
both_below m n k a b d = ground arith

implied : (p q : Bool) → (p ≡ true → q ≡ true) → (not p || q) ≡ true
implied true q h = h refl
implied false q h = refl

square_bound : (n : ℕ) → n ≤ 32767 → n * n ≤ 1073676289
square_bound n h = mul-le-mul h h

tried_fit :
    (w h : ℕ) (img : Image) (x y : ℤ) (r i j : ℕ)
    → IsCanvas w h img
    → r ≤ 32767
    → IsMiddle x r
    → IsMiddle y r
    → i < w
    → j < h
    → comes_to img x y r i j ≡ true
    → squares_fit x y r i j ≡ true
tried_fit w h img x y r i j c small hx hy hi hj t =
    let near_x = axis_near x r img.width i hx c.image.width_small (rw c.width hi) (ground arith) in
    let near_y =
      axis_near y r img.height j hy c.image.height_small (rw c.height hj) (ground arith) in
    let a = square_bound (abs_ℤ (x -ℤ pos i)) (omega arith) in
    let b = square_bound (abs_ℤ (y -ℤ pos j)) (omega arith) in
    let d = square_bound r small in
    both_below (abs_ℤ (x -ℤ pos i) * abs_ℤ (x -ℤ pos i)) (abs_ℤ (y -ℤ pos j) * abs_ℤ (y -ℤ pos j))
      (r * r) a b d

-- A circle of a radius of at most 32767 whose ends an `int32_t` holds, the right and the lower one not
-- negative: exactly the pixels at most the radius away from its middle are blended with the color, each
-- once, and at the pixels of the image that the loops come to no square and no sum of two overflows.
pub draw_circle_lem :
    (w h : ℕ) (img : Image) (x y : ℤ) (r color i j : ℕ)
    → IsCanvas w h img
    → r ≤ 32767
    → IsMiddle x r
    → IsMiddle y r
    → i < w
    → j < h
    → (pixel w (draw_circle img x y (pos r) color) i j
        ≡ (if near x y r i j then blend_colors color (pixel w img i j) else pixel w img i j))
      × ((not (comes_to img x y r i j) || squares_fit x y r i j) ≡ true)
unfolding draw_circle
draw_circle_lem w h img x y r color i j c small hx hy hi hj =
    let painted =
      (for_region-Paints (IsCanvas w h) (pixel w) w h (λ k l s. disc_pixel x y (pos r) color l k s)
          (λ i j. pos j) (λ i j. pos i) (disc x y (pos r) color) (at_least_0 (y -ℤ pos r))
          (below (y +ℤ pos r) img.height +ℤ pos 1) (at_least_0 (x -ℤ pos r))
          (below (x +ℤ pos r) img.width +ℤ pos 1)
          (λ k l _ _. pixels-Paints w h x y (pos r) color k l)).at
        img i j c hi hj in
    let positive : ltb_ℤ (pos r) (pos 0) ≡ false = ground arith in
    (
      rw positive (
          painted ∙ elim (Bool-cases (in_disc x y (pos r) (pos i) (pos j))) [
            | inr e ↦ rw (← (in_disc-leb x y (pos i) (pos j) r), e) (if_same _ _)
            | inl e ↦
                let d = disc-le x y (pos i) (pos j) r e in
                rw (
                  axis_within x r w i img.width c.width c.image.width_small hi hx.last d.0,
                  axis_within y r h j img.height c.height c.image.height_small hj hy.last d.1,
                  ← (in_disc-leb x y (pos i) (pos j) r),
                  e,
                )
          ]),
      implied (comes_to img x y r i j) (squares_fit x y r i j)
          (tried_fit w h img x y r i j c small hx hy hi hj),
    )
