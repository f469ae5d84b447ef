-- ===== src/Draw/Shapes/Tests.antt =====
-- The shapes on small images, and the theorems at inputs that meet their hypotheses.
use csf.Base.{not, ◌||◌, ◌≡◌, refl, true, [], ◌∷◌, some, none, arith}
use csf.Base.Int.{pos, negsuc, ◌+ℤ◌, ◌-ℤ◌, ◌*ℤ◌}
use csf.Draw.{Image, in_bounds, compute_index, blend_components, blend_colors}
use csf.Draw.Pixel.{IsImage}
use csf.Draw.Shapes.{
  Rect, for_ints, at_least_0, draw_rect, in_disc, draw_circle, copy_pixel, clip, limit, outside,
  to_size, draw_tile, draw_sprite,
}
use csf.Draw.Shapes.Canvas.{IsCanvas, pixel}
use csf.Draw.Shapes.Rectangle.{draw_rect_lem, draw_rect_off_left}
use csf.Draw.Shapes.Circle.{draw_circle_lem, comes_to, squares_fit}
use csf.Draw.Shapes.Sprite.{draw_sprite_lem, reads_inside, sprite_color}
use csf.Draw.Shapes.Tile.Copied.{IsSafe, pixel?}
use csf.Draw.Shapes.Tile.Drawn.{tile_of, draw_tile_lem}

abbrev paper : Image
paper = record { width = 2; height = 2; data' = 10 ∷ 20 ∷ 30 ∷ 40 ∷ [] }

abbrev tiles : Image
tiles = record { width = 3; height = 2; data' = 1 ∷ 2 ∷ 3 ∷ 4 ∷ 5 ∷ 6 ∷ [] }

paper-IsImage : IsImage paper
paper-IsImage = record {
  size = refl;
  small = omega arith;
  width_small = omega arith;
  height_small = omega arith;
}

paper-IsCanvas : IsCanvas 2 2 paper
paper-IsCanvas = record { width = refl; height = refl; image = paper-IsImage }

tiles-IsImage : IsImage tiles
tiles-IsImage = record {
  size = refl;
  small = omega arith;
  width_small = omega arith;
  height_small = omega arith;
}

-- A tile that sticks out on the left and at the bottom.
clipped :
    draw_tile paper (negsuc 0) (pos 1) tiles (tile_of 0 0 3 2)
    ≡ some (record { width = 2; height = 2; data' = 10 ∷ 20 ∷ 2 ∷ 3 ∷ [] })
unfolding draw_tile clip limit outside to_size for_ints copy_pixel compute_index at_least_0
    in_bounds ◌+ℤ◌ ◌-ℤ◌ ◌*ℤ◌
clipped = refl

-- One that ends to the left of the image is not cut: the tilemap is read where it has no pixel.
off_left : draw_tile paper (negsuc 3) (pos 0) tiles (tile_of 0 1 2 1) ≡ none
unfolding draw_tile clip limit outside to_size for_ints copy_pixel compute_index at_least_0
    in_bounds ◌+ℤ◌ ◌-ℤ◌ ◌*ℤ◌
off_left = refl

abbrev wide_rect : Rect
wide_rect = record { x = negsuc 0; y = pos 1; width = pos 2; height = pos 5 }

abbrev left_rect : Rect
left_rect = record { x = negsuc 4; y = pos 0; width = pos 2; height = pos 1 }

draw_rect_lem_example :
    pixel 2 (draw_rect paper wide_rect 0x0102_0380) 0 1 ≡ blend_colors 0x0102_0380 30
unfolding ◌+ℤ◌
draw_rect_lem_example =
    draw_rect_lem 2 2 paper wide_rect 0x0102_0380 0 1 paper-IsCanvas (omega arith) (omega arith)
      (omega arith) (omega arith)

draw_rect_off_left_example :
    pixel 2 (draw_rect paper left_rect 0x0102_0380) 1 0 ≡ blend_colors 0x0102_0380 20
unfolding ◌+ℤ◌
draw_rect_off_left_example =
    draw_rect_off_left 2 2 paper left_rect 0x0102_0380 1 0 4 2 paper-IsCanvas refl refl
      (omega arith) refl refl (omega arith) (omega arith) (omega arith)

draw_circle_lem_example :
    (pixel 2 (draw_circle paper (pos 0) (pos 1) (pos 1) 0x0102_0380) 1 1
      ≡ blend_colors 0x0102_0380 40)
    × ((not (comes_to paper (pos 0) (pos 1) 1 1 1) || squares_fit (pos 0) (pos 1) 1 1 1) ≡ true)
unfolding in_disc ◌+ℤ◌ blend_colors ◌*ℤ◌ blend_components ◌-ℤ◌
draw_circle_lem_example =
    draw_circle_lem 2 2 paper (pos 0) (pos 1) 1 0x0102_0380 1 1 paper-IsCanvas (omega arith)
      (record { first = refl; last = refl; reaches = omega arith })
      (record { first = refl; last = refl; reaches = omega arith }) (omega arith) (omega arith)

draw_sprite_lem_example :
    (pixel 2 (draw_sprite paper (pos 1) (pos 0) tiles (tile_of 0 0 2 1)) 1 0 ≡ blend_colors 1 20)
    × (reads_inside tiles (tile_of 0 0 2 1) (pos 1) (pos 0) 1 0 ≡ true)
unfolding in_bounds ◌+ℤ◌ compute_index ◌-ℤ◌ ◌*ℤ◌
draw_sprite_lem_example =
    draw_sprite_lem 2 2 paper (pos 1) (pos 0) tiles (tile_of 0 0 2 1) 1 0 paper-IsCanvas
      tiles-IsImage (record { first = refl; last = refl }) (record { first = refl; last = refl })
      refl refl (omega arith) (omega arith)

draw_tile_lem_example :
    IsSafe 2 2 (draw_tile paper (negsuc 0) (pos 1) tiles (tile_of 0 0 3 2))
    × (pixel? 2 (draw_tile paper (negsuc 0) (pos 1) tiles (tile_of 0 0 3 2)) 1 1
        ≡ sprite_color tiles (tile_of 0 0 3 2) (negsuc 0) (pos 1) 1 1)
unfolding ◌+ℤ◌
draw_tile_lem_example =
    draw_tile_lem paper tiles (negsuc 0) (pos 1) 0 0 3 2 1 1 paper-IsImage tiles-IsImage
      (record { not_before = refl; small = refl }) (record { not_before = refl; small = refl })
      (omega arith) (omega arith) (omega arith) (omega arith)
