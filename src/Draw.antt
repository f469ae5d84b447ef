-- ===== src/Draw.antt =====
-- csf_assign02/c_drawing_funcs.c, the helper functions and draw_pixel, on the struct of image.h. A
-- coordinate is an `int32_t`, a color the 32-bit word 0xRRGGBBAA. The children model the shapes and
-- image.c.
pub mod Pixel
pub mod Shapes
pub mod ImageFile
pub mod Input
pub mod Driver
mod Tests
use csf.Base.{
  ℕ, ◌+◌, ◌-◌, ◌*◌, ◌/◌, ◌%◌, ◌^◌, Bool, true, false, not, ◌||◌, List, bit_and, bit_or, ltb, leb,
  ◌==◌, get_or, if◌then◌else◌, u8, u32, ◌<<<◌, ◌>>>◌,
}
use csf.Base.Bits.{bit_and-eq-mod}
use csf.Base.Int.{ℤ, pos, negsuc, ◌+ℤ◌, ◌-ℤ◌, ◌*ℤ◌, pos_part, neg_part, ltb_ℤ}
use csf.Base

pub record Image : Type 0 where
  pub width : ℕ
  pub height : ℕ
  pub data' : List ℕ

-- The conversions between `uint32_t` and `int32_t`.
abbrev pub to_i32 : ℕ → ℤ
to_i32 n = if ltb n (2 ^ 31) then pos n else negsuc (2 ^ 32 - 1 - n)

abbrev pub to_u32 : ℤ → ℕ
to_u32 (pos n) = u32 n
to_u32 (negsuc n) = u32 (2 ^ 32 - 1 - n % 2 ^ 32)

unfoldable pub in_bounds : Image → ℤ → ℤ → Bool
in_bounds img x y = not (
    ltb_ℤ y (pos 0)
    || not (ltb_ℤ y (to_i32 img.height))
    || ltb_ℤ x (pos 0)
    || not (ltb_ℤ x (to_i32 img.width)))

unfoldable pub compute_index : Image → ℤ → ℤ → ℕ
compute_index img x y =
    if in_bounds img x y then to_u32 (y *ℤ to_i32 img.width +ℤ x) else 2 ^ 32 - 1

abbrev pub get_r : ℕ → ℕ
get_r color = bit_and (color >>> 24) 0xff

abbrev pub get_g : ℕ → ℕ
get_g color = bit_and (color >>> 16) 0xff

abbrev pub get_b : ℕ → ℕ
get_b color = bit_and (color >>> 8) 0xff

abbrev pub get_a : ℕ → ℕ
get_a color = bit_and color 0xff

unfoldable pub blend_components : ℕ → ℕ → ℕ → ℕ
blend_components fg bg alpha = u8 (u32 (alpha * fg + bg * (255 - alpha)) / 255)

abbrev pub color_of : ℕ → ℕ → ℕ → ℕ
color_of r g b = bit_or (bit_or (bit_or (u32 (r <<< 24)) (g <<< 16)) (b <<< 8)) 255

unfoldable pub blend_colors : ℕ → ℕ → ℕ
blend_colors fg bg =
    let a = get_a fg in
    if a == 0
    then bg
    else if a == 255
    then color_of (get_r fg) (get_g fg) (get_b fg)
    else color_of (blend_components (get_r fg) (get_r bg) a)
        (blend_components (get_g fg) (get_g bg) a) (blend_components (get_b fg) (get_b bg) a)

unfoldable pub set_pixel : Image → ℕ → ℕ → Image
set_pixel img index color =
    if leb (u32 (img.width * img.height)) index
    then img
    else record img { data' = Base.set img.data' index color }

unfoldable pub draw_pixel : Image → ℤ → ℤ → ℕ → Image
draw_pixel img x y color =
    let index = compute_index img x y in
    if in_bounds img x y
    then set_pixel img index (blend_colors color (get_or img.data' index 0))
    else img
