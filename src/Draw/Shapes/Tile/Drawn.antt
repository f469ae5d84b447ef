-- ===== src/Draw/Shapes/Tile/Drawn.antt =====
-- The image that `draw_tile` leaves.
use csf.Base.{
  ℕ, ◌+◌, ◌^◌, ◌≤◌, ◌<◌, min, ◌≡◌, ◌⊎◌, refl, sym, ap, ◌∙◌, Bool, true, false, ◌&&◌, ◌||◌, arith,
  some, if◌then◌else◌, Bool-cases, inl, inr,
}
use csf.Base.Int.{ℤ, pos, negsuc, ◌+ℤ◌, ◌-ℤ◌, ltb_ℤ, pos_part, +ℤ_parts, -ℤ_parts}
use csf.Draw.{Image, compute_index, to_i32}
use csf.Draw.Pixel.{IsImage}
use csf.Draw.Shapes.{
  Rect, Span, leb_ℤ, at_most_ℤ, at_least_0, rounds, clip, limit, outside, to_size, copy_pixel,
  draw_tile,
}
use csf.Draw.Shapes.Paint.{within, within-zero, for_region-Paints}
use csf.Draw.Shapes.Canvas.{IsCanvas, pixel}
use csf.Draw.Shapes.Rectangle.{if_congr, and_congr}
use csf.Draw.Shapes.Sprite.{sprite_color, placed}
use csf.Draw.Shapes.Tile.{
  IsAxis, TileAxis, pos-TileAxis, negsuc-TileAxis, rounds_from_0, pos_part-at_most_ℤ, to_i32-pos,
}
use csf.Draw.Shapes.Tile.Copied.{IsSafe, pixel?, copies-Paints}

-- The tile ends at 0 or behind it, and its end is an `int32_t`.
pub record Reaches (x : ℤ) (width : ℕ) : Type 0 where
  pub not_before : leb_ℤ (pos 0) (x +ℤ pos width) ≡ true
  pub small : ltb_ℤ (x +ℤ pos width) (pos (2 ^ 31)) ≡ true

axis_of_tile :
    (x : ℤ) (width size map_size at : ℕ)
    → Reaches x width
    → size < 2 ^ 31
    → map_size < 2 ^ 31
    → at + width ≤ map_size
    → TileAxis x width size map_size at
axis_of_tile (pos a) width size map_size at r hs hm h =
    pos-TileAxis a width size map_size at (ground (arith, +ℤ_parts (pos a) (pos width), r.small)) hs
      hm h
axis_of_tile (negsuc a) width size map_size at r hs hm h =
    negsuc-TileAxis a width size map_size at
      (ground (arith, +ℤ_parts (negsuc a) (pos width), r.not_before)) (omega arith) hs hm h

no_rounds :
    (span : Span) (map_size size : ℕ) (at : ℤ)
    → leb_ℤ span.extent (pos 0) ≡ true
    → rounds (pos 0) (limit span map_size size at) ≡ 0
unfolding limit
no_rounds span map_size size at e =
    empty span.extent (to_i32 map_size -ℤ at) (to_i32 size -ℤ span.to) e
  where
    empty : (u v z : ℤ) → leb_ℤ u (pos 0) ≡ true → rounds (pos 0) (at_most_ℤ (at_most_ℤ u v) z) ≡ 0
    empty u v z h =
        rounds_from_0 (at_most_ℤ (at_most_ℤ u v) z)
        ∙ pos_part-at_most_ℤ (at_most_ℤ u v) z
        ∙ ap (λ n. min n (pos_part z)) (pos_part-at_most_ℤ u v)
        ∙ ground arith

to_size_lem : (z : ℤ) → leb_ℤ (pos 0) z ≡ true → to_size z ≡ rounds (pos 0) z
unfolding to_size
to_size_lem (pos n) h = sym (rounds_from_0 (pos n))
to_size_lem (negsuc n) h = absurd (ground arith)

-- The start of a tile that is not cut away whole.
starts_in :
    (x : ℤ) (width size : ℕ)
    → Reaches x width
    → size < 2 ^ 31
    → leb_ℤ (clip x (pos width) size).extent (pos 0) ≡ false
    → leb_ℤ (clip x (pos width) size).to (pos size) ≡ true
unfolding clip at_least_0 ◌+ℤ◌ ◌-ℤ◌
starts_in (pos a) width size r hs h = ground (arith, r.small)
starts_in (negsuc a) width size r hs h = ground arith

not_negative :
    (u v z : ℤ)
    → leb_ℤ u (pos 0) ≡ false
    → leb_ℤ (pos 0) v ≡ true
    → leb_ℤ (pos 0) z ≡ true
    → leb_ℤ (pos 0) (at_most_ℤ (at_most_ℤ u v) z) ≡ true
not_negative u v z a b c = ground arith

difference :
    (to : ℤ) (size : ℕ)
    → size < 2 ^ 31
    → leb_ℤ to (pos size) ≡ true
    → leb_ℤ (pos 0) (to_i32 size -ℤ to) ≡ true
difference to size hs h =
    ap (λ z. leb_ℤ (pos 0) (z -ℤ to)) (to_i32-pos size hs) ∙ ground (arith, -ℤ_parts (pos size) to)

tile_rounds :
    (x : ℤ) (width size map_size at : ℕ)
    → Reaches x width
    → size < 2 ^ 31
    → map_size < 2 ^ 31
    → at + width ≤ map_size
    → leb_ℤ (clip x (pos width) size).extent (pos 0) ≡ false
    → to_size (limit (clip x (pos width) size) map_size size (pos at))
      ≡ rounds (pos 0) (limit (clip x (pos width) size) map_size size (pos at))
unfolding limit
tile_rounds x width size map_size at r hs hm h e = to_size_lem _ (
    not_negative (clip x (pos width) size).extent (to_i32 map_size -ℤ pos at)
      (to_i32 size -ℤ (clip x (pos width) size).to) e
      (difference (pos at) map_size hm (ground arith))
      (difference (clip x (pos width) size).to size hs (starts_in x width size r hs e)))

-- Without rounds, no place is covered.
nothing_covered :
    (x : ℤ) (width size map_size at : ℕ) (to start : ℤ) (n i : ℕ)
    → IsAxis x width size map_size at to start n
    → n ≡ 0
    → i < size
    → (leb_ℤ x (pos i) && ltb_ℤ (pos i) (x +ℤ pos width)) ≡ false
nothing_covered x width size map_size at to start n i axis e hi =
    sym (axis.covered i hi)
    ∙ ap (λ k. within (pos 0) k (pos i -ℤ to)) e
    ∙ within-zero (pos 0) (pos i -ℤ to)

abbrev pub tile_of : ℕ → ℕ → ℕ → ℕ → Rect
tile_of at_x at_y width height = record {
  x = pos at_x;
  y = pos at_y;
  width = pos width;
  height = pos height;
}

not-outside :
    (at_x at_y width height : ℕ) (tilemap : Image)
    → at_x + width ≤ tilemap.width
    → at_y + height ≤ tilemap.height
    → tilemap.width < 2 ^ 31
    → tilemap.height < 2 ^ 31
    → outside (tile_of at_x at_y width height) tilemap ≡ false
unfolding outside ◌+ℤ◌
not-outside at_x at_y width height tilemap hx hy hw hh = ground arith

either_false : (p q : Bool) → (p ≡ false) ⊎ (q ≡ false) → (p && q) ≡ false
either_false true true (inl e) = e
either_false true true (inr e) = e
either_false true false h = refl
either_false false q h = refl

or_cases : (p q : Bool) → (p || q) ≡ true → (p ≡ true) ⊎ (q ≡ true)
or_cases true q e = inl refl
or_cases false q e = inr e

if_false : (p : Bool) (a b : ℕ) → p ≡ false → b ≡ (if p then a else b)
if_false p a b e = rw e refl

canvas : {img : Image} → IsImage img → IsCanvas img.width img.height img
canvas c = record { width = refl; height = refl; image = c }

-- Where the tile lies in the tilemap and ends at 0 or behind it in both directions, `draw_tile` reads
-- and writes inside of the two arrays only, and the pixels of the image that the tile, put at `(x, y)`,
-- covers become the tile's, while the others stay.
pub draw_tile_lem :
    (img tilemap : Image) (x y : ℤ) (at_x at_y width height i j : ℕ)
    → IsImage img
    → IsImage tilemap
    → Reaches x width
    → Reaches y height
    → at_x + width ≤ tilemap.width
    → at_y + height ≤ tilemap.height
    → i < img.width
    → j < img.height
    → IsSafe img.width img.height (draw_tile img x y tilemap (tile_of at_x at_y width height))
      × (pixel? img.width (draw_tile img x y tilemap (tile_of at_x at_y width height)) i j ≡ (
          if placed (tile_of at_x at_y width height) x y i j
          then sprite_color tilemap (tile_of at_x at_y width height) x y i j
          else pixel img.width img i j))
unfolding draw_tile
draw_tile_lem img tilemap x y at_x at_y width height i j c m rx ry hx hy hi hj =
    rw inside (elim (Bool-cases (leb_ℤ cols.extent (pos 0) || leb_ℤ rows.extent (pos 0))) [
      | inl e ↦ rw e (canvas c, if_false (placed tile x y i j) _ _ (nothing e))
      | inr e ↦
          let ex =
            tile_rounds x width img.width tilemap.width at_x rx c.width_small m.width_small hx
              (ground arith) in
          let ey =
            tile_rounds y height img.height tilemap.height at_y ry c.height_small m.height_small hy
              (ground arith) in
          let painted =
            for_region-Paints (IsSafe img.width img.height) (pixel? img.width) img.width img.height
              (λ k l s.
                copy_pixel tilemap (compute_index img (cols.to +ℤ k) (rows.to +ℤ l))
                  (compute_index tilemap (tile.x +ℤ cols.start +ℤ k) (tile.y +ℤ rows.start +ℤ l)) s)
              (λ i j. pos i -ℤ cols.to) (λ i j. pos j -ℤ rows.to)
              (λ i j p. sprite_color tilemap tile x y i j) (pos 0)
              (limit cols tilemap.width img.width (pos at_x)) (pos 0)
              (limit rows tilemap.height img.height (pos at_y))
              (λ k l p q.
                copies-Paints img.width img.height tilemap.width tilemap.height img tilemap
                  (canvas c) (canvas m) x y tile at_x at_y width height cols.to cols.start rows.to
                  rows.start _ _ refl refl x_axis y_axis k l p q) in
          rw (e, ex, ey)
            (
              painted.ok (some img) (canvas c),
              painted.at (some img) i j (canvas c) hi hj
                  ∙ if_congr _ _ (and_congr (y_axis.covered j hj) (x_axis.covered i hi)),
            )
    ])
  where
    tile : Rect
    tile = tile_of at_x at_y width height

    cols : Span
    cols = clip x (pos width) img.width

    rows : Span
    rows = clip y (pos height) img.height

    x_axis : TileAxis x width img.width tilemap.width at_x
    x_axis = axis_of_tile x width img.width tilemap.width at_x rx c.width_small m.width_small hx

    y_axis : TileAxis y height img.height tilemap.height at_y
    y_axis =
        axis_of_tile y height img.height tilemap.height at_y ry c.height_small m.height_small hy

    inside : outside tile tilemap ≡ false
    inside = not-outside at_x at_y width height tilemap hx hy m.width_small m.height_small

    nothing :
        (leb_ℤ cols.extent (pos 0) || leb_ℤ rows.extent (pos 0)) ≡ true
        → placed tile x y i j ≡ false
    nothing e = either_false _ _ (elim (or_cases _ _ e) [
      | inl p ↦ inr (
          nothing_covered x width img.width tilemap.width at_x _ _ _ i x_axis
            (no_rounds cols tilemap.width img.width (pos at_x) p) hi)
      | inr p ↦ inl (
          nothing_covered y height img.height tilemap.height at_y _ _ _ j y_axis
            (no_rounds rows tilemap.height img.height (pos at_y) p) hj)
    ])
