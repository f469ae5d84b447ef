-- ===== src/Draw/Shapes/Rectangle.antt =====
-- Which pixels `draw_rect` paints.
use csf.Base.{
  ℕ, ◌^◌, ◌<◌, ◌≡◌, refl, ap, ap₂, ◌∙◌, Bool, true, false, ◌&&◌, ◌||◌, arith, if◌then◌else◌,
  Bool-cases, inl, inr,
}
use csf.Base.Int.{ℤ, pos, negsuc, ◌+ℤ◌, ltb_ℤ}
use csf.Draw.{Image, draw_pixel, blend_colors}
use csf.Draw.Shapes.{Rect, leb_ℤ, for_region, rounds, at_least_0, at_most, draw_rect}
use csf.Draw.Shapes.Paint.{Paints, eq_ℤ, within, for_region-Paints}
use csf.Draw.Shapes.Canvas.{IsCanvas, pixel, draw_pixel-IsCanvas, draw_pixel-at}
use csf.Draw.Shapes.Clamp.{range_lem, whole_range_lem}

module _ (w h color : ℕ) where
  pixels-Paints :
      (k l : ℤ)
      → Paints
          (IsCanvas w h)
          (pixel w)
          w
          h
          (λ s. draw_pixel s k l color)
          (λ i j. eq_ℤ l (pos j) && eq_ℤ k (pos i))
          (λ i j p. blend_colors color p)
  pixels-Paints k l = record {
    ok = λ s c. draw_pixel-IsCanvas w h s k l color c;
    at = λ s i j c hi hj. draw_pixel-at w h s k l color i j c hi hj;
  }

  loops-Paints :
      (min_x max_x min_y max_y : ℤ)
      → Paints
          (IsCanvas w h)
          (pixel w)
          w
          h
          (λ s. for_region min_x max_x min_y max_y (λ col row s'. draw_pixel s' col row color) s)
          (λ i j.
            within min_y (rounds min_y max_y) (pos j) && within min_x (rounds min_x max_x) (pos i))
          (λ i j p. blend_colors color p)
  loops-Paints min_x max_x min_y max_y =
      for_region-Paints (IsCanvas w h) (pixel w) w h (λ col row s. draw_pixel s col row color)
        (λ i j. pos i) (λ i j. pos j) (λ i j p. blend_colors color p) min_x max_x min_y max_y
        (λ k l _ _. pixels-Paints k l)

-- `x <= i < x + width`, and the same for the rows.
abbrev pub covers : Rect → ℕ → ℕ → Bool
covers rect i j =
    (leb_ℤ rect.y (pos j) && ltb_ℤ (pos j) (rect.y +ℤ rect.height))
    && (leb_ℤ rect.x (pos i) && ltb_ℤ (pos i) (rect.x +ℤ rect.width))

-- An end that `int32_t` holds and that is not negative.
abbrev pub IsEnd : ℤ → Type 0
IsEnd (pos m) = m < 2 ^ 31
IsEnd (negsuc m) = ⊥

axis_lem :
    (x e : ℤ) (w i : ℕ)
    → IsEnd e
    → w < 2 ^ 31
    → i < w
    → within (at_least_0 x) (rounds (at_least_0 x) (at_most e w)) (pos i)
      ≡ (leb_ℤ x (pos i) && ltb_ℤ (pos i) e)
axis_lem x (pos m) w i he hw hi = range_lem x m w i he hw hi ∙ ground arith
axis_lem x (negsuc m) w i he hw hi = absurd he

empty_axis :
    (x width : ℤ) (i : ℕ)
    → leb_ℤ width (pos 0) ≡ true
    → (leb_ℤ x (pos i) && ltb_ℤ (pos i) (x +ℤ width)) ≡ false
unfolding ◌+ℤ◌
empty_axis x width i e = ground arith

-- No pixel is covered by a rectangle of no width or height.
empty_covers :
    (rect : Rect) (i j : ℕ)
    → (leb_ℤ rect.width (pos 0) || leb_ℤ rect.height (pos 0)) ≡ true
    → covers rect i j ≡ false
unfolding ◌+ℤ◌
empty_covers rect i j e =
    ground (arith, empty_axis rect.x rect.width i, empty_axis rect.y rect.height j)

axis :
    (x width : ℤ) (i w size : ℕ)
    → size ≡ w
    → size < 2 ^ 31
    → i < w
    → IsEnd (x +ℤ width)
    → within (at_least_0 x) (rounds (at_least_0 x) (at_most (x +ℤ width) size)) (pos i)
      ≡ (leb_ℤ x (pos i) && ltb_ℤ (pos i) (x +ℤ width))
axis x width i w size e small hi he = axis_lem x (x +ℤ width) size i he small (omega arith)

pub if_congr : {p q : Bool} (a b : ℕ) → p ≡ q → (if p then a else b) ≡ (if q then a else b)
if_congr a b e = ap (λ t. if t then a else b) e

pub and_congr : {p q p' q' : Bool} → p ≡ p' → q ≡ q' → (p && q) ≡ (p' && q')
and_congr e f = ap₂ ◌&&◌ e f

-- Where the right and the lower end of the rectangle are not negative, exactly the pixels that it
-- covers are blended with the color, each once.
pub draw_rect_lem :
    (w h : ℕ) (img : Image) (rect : Rect) (color i j : ℕ)
    → IsCanvas w h img
    → IsEnd (rect.x +ℤ rect.width)
    → IsEnd (rect.y +ℤ rect.height)
    → i < w
    → j < h
    → pixel w (draw_rect img rect color) i j
      ≡ (if covers rect i j then blend_colors color (pixel w img i j) else pixel w img i j)
unfolding draw_rect
draw_rect_lem w h img rect color i j c ex ey hi hj =
    elim (Bool-cases (leb_ℤ rect.width (pos 0) || leb_ℤ rect.height (pos 0))) [
      | inl e ↦ rw (e, empty_covers rect i j e)
      | inr e ↦ rw e (
          (loops-Paints w h color (at_least_0 rect.x) (at_most (rect.x +ℤ rect.width) img.width)
              (at_least_0 rect.y) (at_most (rect.y +ℤ rect.height) img.height)).at
            img i j c hi hj
          ∙ if_congr _ _ (
              and_congr (axis rect.y rect.height j h img.height c.height c.image.height_small hj ey)
                (axis rect.x rect.width i w img.width c.width c.image.width_small hi ex)))
    ]

whole_axis :
    (x e : ℤ) (a m size i : ℕ)
    → x ≡ negsuc a
    → e ≡ negsuc m
    → m < 2 ^ 31
    → size < 2 ^ 31
    → i < size
    → within (at_least_0 x) (rounds (at_least_0 x) (at_most e size)) (pos i) ≡ true
whole_axis x e a m size i p q hm hs hi = rw (p, q) (whole_range_lem a m size i hm hs hi)

and_true : (p : Bool) → (p && true) ≡ p
and_true true = refl
and_true false = refl

-- Where the right end is below 0 and the lower one is not, the rectangle, which covers no pixel, is
-- drawn over the whole width of the image.
pub draw_rect_off_left :
    (w h : ℕ) (img : Image) (rect : Rect) (color i j a m : ℕ)
    → IsCanvas w h img
    → rect.x ≡ negsuc a
    → rect.x +ℤ rect.width ≡ negsuc m
    → m < 2 ^ 31
    → leb_ℤ rect.width (pos 0) ≡ false
    → leb_ℤ rect.height (pos 0) ≡ false
    → IsEnd (rect.y +ℤ rect.height)
    → i < w
    → j < h
    → pixel w (draw_rect img rect color) i j ≡ (
        if leb_ℤ rect.y (pos j) && ltb_ℤ (pos j) (rect.y +ℤ rect.height)
        then blend_colors color (pixel w img i j)
        else pixel w img i j)
unfolding draw_rect
draw_rect_off_left w h img rect color i j a m c ex em hm ew eh ey hi hj =
    simp (ew, eh)
      ((loops-Paints w h color (at_least_0 rect.x) (at_most (rect.x +ℤ rect.width) img.width)
            (at_least_0 rect.y) (at_most (rect.y +ℤ rect.height) img.height)).at
          img i j c hi hj
        ∙ if_congr _ _ (
            and_congr (axis rect.y rect.height j h img.height c.height c.image.height_small hj ey) (
              whole_axis rect.x (rect.x +ℤ rect.width) a m img.width i ex em hm c.image.width_small
                (omega (arith, c.width, hi)))
            ∙ and_true _))
