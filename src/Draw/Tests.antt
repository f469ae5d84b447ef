-- ===== src/Draw/Tests.antt =====
-- Runs at a small image.
use csf.Base.{◌≡◌, refl, [], ◌∷◌}
use csf.Base.Int.{pos, negsuc, ◌+ℤ◌, ◌*ℤ◌}
use csf.Draw.{
  Image, in_bounds, compute_index, blend_components, blend_colors, set_pixel, draw_pixel,
}

abbrev two_by_two : Image
two_by_two = record { width = 2; height = 2; data' = 1 ∷ 0x000000ff ∷ 3 ∷ 4 ∷ [] }

-- Half-transparent red over black, and a pixel out of bounds.
red_over_black :
    (draw_pixel two_by_two (pos 1) (pos 0) 0xff00_0080).data' ≡ 1 ∷ 0x8000_00ff ∷ 3 ∷ 4 ∷ []
unfolding draw_pixel set_pixel blend_colors blend_components compute_index in_bounds ◌+ℤ◌ ◌*ℤ◌
red_over_black = refl

outside : draw_pixel two_by_two (negsuc 0) (pos 0) 0xff00_00ff ≡ two_by_two
unfolding draw_pixel in_bounds
outside = refl
