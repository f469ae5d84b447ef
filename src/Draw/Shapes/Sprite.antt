-- ===== src/Draw/Shapes/Sprite.antt =====
-- Which pixels `draw_sprite` paints.
use csf.Base.{
  ℕ, ◌^◌, ◌<◌, ◌≡◌, ◌⊎◌, refl, sym, ap, ap₂, ◌∙◌, Bool, true, false, not, ◌&&◌, ◌||◌, ltb, arith,
  get_or, if◌then◌else◌, if_lem, Bool-cases, inl, inr, length, suc, ◌+◌, ◌≤◌,
}
use csf.Base.Int.{
  ℤ, pos, negsuc, pos_part, neg_part, int_laws, ◌≤ℤ◌, ◌+ℤ◌, ◌-ℤ◌, ltb_ℤ, +ℤ_parts, -ℤ_parts,
  eq_of_parts,
}
use csf.Draw.{Image, in_bounds, compute_index, blend_colors}
use csf.Draw.Shapes.{Rect, leb_ℤ, rounds, sprite_pixel, draw_sprite}
use csf.Draw.Shapes.Paint.{Paints, eq_ℤ, within, for_region-Paints}
use csf.Draw.Shapes.Canvas.{IsCanvas, pixel, draw_pixel-IsCanvas, draw_pixel-at, not_outside}
use csf.Draw.Pixel.{IsImage, compute_index_lem}
use csf.Draw.Shapes.Clamp.{is_i32}
use csf.Draw.Shapes.Rectangle.{if_congr, and_congr}

-- The color of the sprite for the pixel `(i, j)` of the image.
abbrev pub sprite_color : Image → Rect → ℤ → ℤ → ℕ → ℕ → ℕ
sprite_color spritemap sprite x y i j =
    get_or spritemap.data'
      (compute_index spritemap (sprite.x +ℤ (pos i -ℤ x)) (sprite.y +ℤ (pos j -ℤ y))) 0

pub eq_shift : (x k : ℤ) (i : ℕ) → eq_ℤ (x +ℤ k) (pos i) ≡ eq_ℤ k (pos i -ℤ x)
eq_shift x k i = ground (arith, +ℤ_parts x k, -ℤ_parts (pos i) x)

eq_ℤ→eq : (k c : ℤ) → eq_ℤ k c ≡ true → k ≡ c
eq_ℤ→eq k c e = eq_of_parts k c (ground arith)

outside : (q p : Bool) (a b : ℕ) → (p && q) ≡ false → b ≡ (if q && p then a else b)
outside true true a b e = absurd (ground (arith, e))
outside true false a b e = refl
outside false p a b e = refl

inside :
    (q p q' p' : Bool) (u v : ℕ) (g : ℕ → ℕ) (b : ℕ)
    → q' ≡ q
    → p' ≡ p
    → (p ≡ true → q ≡ true → u ≡ v)
    → (if q' && p' then g u else b) ≡ (if q && p then g v else b)
inside true true q' p' u v g b e f h = rw (e, f) (ap g (h refl refl))
inside true false q' p' u v g b e f h = rw (e, f)
inside false p q' p' u v g b e f h = rw e

if_same {ℓ} : {A : Type ℓ} (b : Bool) (a : A) → (if b then a else a) ≡ a
if_same true a = refl
if_same false a = refl

edge_out :
    (img : Image) (a b : ℤ)
    → img.width < 2 ^ 31
    → img.height < 2 ^ 31
    → (a ≡ pos img.width) ⊎ (b ≡ pos img.height)
    → in_bounds img a b ≡ false
unfolding in_bounds
edge_out img a b hw hh (inl e) = rw e (ground arith)
edge_out img a b hw hh (inr e) = rw e (ground arith)

module _ (w h : ℕ) (spritemap : Image) (sprite : Rect) (x y : ℤ) where
  sprite_pixel-at :
      (s : Image) (k l : ℤ) (i j : ℕ)
      → IsCanvas w h s
      → i < w
      → j < h
      → pixel w (sprite_pixel spritemap sprite x y k l s) i j ≡ (
          if eq_ℤ l (pos j -ℤ y) && eq_ℤ k (pos i -ℤ x)
          then blend_colors (sprite_color spritemap sprite x y i j) (pixel w s i j)
          else pixel w s i j)
  unfolding sprite_pixel
  sprite_pixel-at s k l i j c hi hj = elim (Bool-cases (in_bounds s (x +ℤ k) (y +ℤ l))) [
    | inr e ↦ rw e (
        outside (eq_ℤ l (pos j -ℤ y)) (eq_ℤ k (pos i -ℤ x)) _ _ (
          ap₂ ◌&&◌ (sym (eq_shift x k i)) (sym (eq_shift y l j))
          ∙ not_outside w h s (x +ℤ k) (y +ℤ l) i j c hi hj e))
    | inl e ↦ rw e (
        draw_pixel-at w h s (x +ℤ k) (y +ℤ l) _ i j c hi hj
        ∙ inside (eq_ℤ l (pos j -ℤ y)) (eq_ℤ k (pos i -ℤ x)) _ _ (color_at k l)
            (sprite_color spritemap sprite x y i j) (λ v. blend_colors v (pixel w s i j))
            (pixel w s i j) (eq_shift y l j) (eq_shift x k i)
            (λ p q. ap₂ color_at (eq_ℤ→eq k (pos i -ℤ x) p) (eq_ℤ→eq l (pos j -ℤ y) q)))
  ]
    where
      color_at : ℤ → ℤ → ℕ
      color_at col row =
          get_or spritemap.data' (compute_index spritemap (sprite.x +ℤ col) (sprite.y +ℤ row)) 0

  pixels-Paints :
      (k l : ℤ)
      → Paints
          (IsCanvas w h)
          (pixel w)
          w
          h
          (λ s. sprite_pixel spritemap sprite x y k l s)
          (λ i j. eq_ℤ l (pos j -ℤ y) && eq_ℤ k (pos i -ℤ x))
          (λ i j p. blend_colors (sprite_color spritemap sprite x y i j) p)
  unfolding sprite_pixel
  pixels-Paints k l = record {
    ok = λ s c.
        if_lem (λ (t : Image). IsCanvas w h t) (not (in_bounds s (x +ℤ k) (y +ℤ l))) (λ p. c)
          (λ p. draw_pixel-IsCanvas w h s (x +ℤ k) (y +ℤ l) _ c);
    at = λ s i j c hi hj. sprite_pixel-at s k l i j c hi hj;
  }

-- `x <= i < x + width`, and the same for the rows.
abbrev pub placed : Rect → ℤ → ℤ → ℕ → ℕ → Bool
placed sprite x y i j =
    (leb_ℤ y (pos j) && ltb_ℤ (pos j) (y +ℤ sprite.height))
    && (leb_ℤ x (pos i) && ltb_ℤ (pos i) (x +ℤ sprite.width))

placed_axis :
    (x width : ℤ) (i : ℕ)
    → within (pos 0) (rounds (pos 0) width) (pos i -ℤ x)
      ≡ (leb_ℤ x (pos i) && ltb_ℤ (pos i) (x +ℤ width))
unfolding rounds
placed_axis x width i = ground (arith, -ℤ_parts (pos i) x, -ℤ_parts width (pos 0), +ℤ_parts x width)

-- A coordinate at which something of a width can be put: its ends are values of `int32_t`.
pub record IsPlace (x width : ℤ) : Type 0 where
  pub first : is_i32 x ≡ true
  pub last : is_i32 (x +ℤ width) ≡ true

pos_of : (z : ℤ) → pos 0 ≤ℤ z → (a : ℕ) × (z ≡ pos a)
pos_of (pos a) h = (a, refl)
pos_of (negsuc a) h = absurd (omega arith)

-- One coordinate of the pixel that is read, on an axis of the map.
source_axis :
    (s x width : ℤ) (i size : ℕ)
    → pos 0 ≤ℤ s
    → ltb_ℤ (s +ℤ width) (pos size) ≡ true
    → (leb_ℤ x (pos i) && ltb_ℤ (pos i) (x +ℤ width)) ≡ true
    → (a : ℕ) × (s +ℤ (pos i -ℤ x) ≡ pos a) × (a < size)
source_axis s x width i size h k p =
    let l : x ≤ℤ pos i = ground arith in
    let m : suc (pos_part (pos i) + neg_part (x +ℤ width))
        ≤ pos_part (x +ℤ width) + neg_part (pos i) =
      ground arith in
    let n : suc (pos_part (s +ℤ width) + 0) ≤ size + neg_part (s +ℤ width) = ground arith in
    let (a, e) = pos_of (s +ℤ (pos i -ℤ x)) (omega (int_laws, h, l)) in
    let sum : pos_part (s +ℤ (pos i -ℤ x)) ≡ a = ap pos_part e in
    let none_below : neg_part (s +ℤ (pos i -ℤ x)) ≡ 0 = ap neg_part e in
    (a, e, omega (int_laws, sum, none_below, h, l, m, n))

in_bounds-parts :
    (img : Image) (x y : ℤ)
    → IsImage img
    → in_bounds img x y ≡ true
    → (pos 0 ≤ℤ x)
      × (pos 0 ≤ℤ y)
      × (ltb_ℤ x (pos img.width) ≡ true)
      × (ltb_ℤ y (pos img.height) ≡ true)
unfolding in_bounds
in_bounds-parts img x y m e = (
  ground (arith, m.width_small, m.height_small),
  ground (arith, m.width_small, m.height_small),
  ground (arith, m.width_small, m.height_small),
  ground (arith, m.width_small, m.height_small),
)

-- The pixel that is read is one of the map.
source-inside :
    (map : Image) (sprite : Rect) (x y : ℤ) (i j : ℕ)
    → IsImage map
    → in_bounds map sprite.x sprite.y ≡ true
    → in_bounds map (sprite.x +ℤ sprite.width) (sprite.y +ℤ sprite.height) ≡ true
    → placed sprite x y i j ≡ true
    → compute_index map (sprite.x +ℤ (pos i -ℤ x)) (sprite.y +ℤ (pos j -ℤ y)) < length map.data'
source-inside map sprite x y i j m p q e =
    let c = in_bounds-parts map sprite.x sprite.y m p in
    let d = in_bounds-parts map (sprite.x +ℤ sprite.width) (sprite.y +ℤ sprite.height) m q in
    let (a, ea, la) = source_axis sprite.x x sprite.width i map.width c.0 (d.2) (ground arith) in
    let (b, eb, lb) =
      source_axis sprite.y y sprite.height j map.height (c.1) (d.3) (ground arith) in
    let (k, l) = compute_index_lem map a b m la lb in rw (ea, eb, k, m.size) l

-- Where the sprite covers `(i, j)`, the index that is read is in the array of the map.
abbrev pub reads_inside : Image → Rect → ℤ → ℤ → ℕ → ℕ → Bool
reads_inside map sprite x y i j =
    not (placed sprite x y i j)
    || ltb (compute_index map (sprite.x +ℤ (pos i -ℤ x)) (sprite.y +ℤ (pos j -ℤ y)))
        (length map.data')

if_placed : (p : Bool) (n m : ℕ) → (p ≡ true → n < m) → (not p || ltb n m) ≡ true
if_placed true n m h = let l = h refl in ground arith
if_placed false n m h = refl

-- Where the map of the sprite is an image with all its pixels, the upper left corner of the sprite and
-- the place one past its lower right corner are in bounds of it, so that the sprite touches neither the
-- right nor the lower edge, and the ends of its place are values of `int32_t`: exactly the pixels of
-- the image that the sprite, put at `(x, y)`, covers are blended with its pixels, each once, and each
-- pixel that is read for one of them is in the array of the map.
pub draw_sprite_lem :
    (w h : ℕ) (img : Image) (x y : ℤ) (spritemap : Image) (sprite : Rect) (i j : ℕ)
    → IsCanvas w h img
    → IsImage spritemap
    → IsPlace x sprite.width
    → IsPlace y sprite.height
    → in_bounds spritemap sprite.x sprite.y ≡ true
    → in_bounds spritemap (sprite.x +ℤ sprite.width) (sprite.y +ℤ sprite.height) ≡ true
    → i < w
    → j < h
    → (pixel w (draw_sprite img x y spritemap sprite) i j ≡ (
        if placed sprite x y i j
        then blend_colors (sprite_color spritemap sprite x y i j) (pixel w img i j)
        else pixel w img i j))
      × (reads_inside spritemap sprite x y i j ≡ true)
unfolding draw_sprite
draw_sprite_lem w h img x y spritemap sprite i j c m px py a b hi hj = (
  rw (a, b)
      ((for_region-Paints (IsCanvas w h) (pixel w) w h
            (λ k l s. sprite_pixel spritemap sprite x y k l s) (λ i j. pos i -ℤ x)
            (λ i j. pos j -ℤ y) (λ i j p. blend_colors (sprite_color spritemap sprite x y i j) p)
            (pos 0) sprite.width (pos 0) sprite.height
            (λ k l _ _. pixels-Paints w h spritemap sprite x y k l)).at
          img i j c hi hj
        ∙ if_congr _ _ (and_congr (placed_axis y sprite.height j) (placed_axis x sprite.width i))),
  if_placed (placed sprite x y i j) _ _ (source-inside spritemap sprite x y i j m a b),
)

-- A sprite that reaches the right or the lower edge of its map is not drawn.
pub draw_sprite_at_edge :
    (img : Image) (x y : ℤ) (spritemap : Image) (sprite : Rect)
    → spritemap.width < 2 ^ 31
    → spritemap.height < 2 ^ 31
    → (sprite.x +ℤ sprite.width ≡ pos spritemap.width)
      ⊎ (sprite.y +ℤ sprite.height ≡ pos spritemap.height)
    → draw_sprite img x y spritemap sprite ≡ img
unfolding draw_sprite
draw_sprite_at_edge img x y spritemap sprite hw hh e =
    rw (edge_out spritemap _ _ hw hh e) (if_same _ _)
