-- ===== src/Draw/Shapes.antt =====
-- csf_assign02/c_drawing_funcs.c: rectangles, circles, tiles and sprites, on the `struct Rect` of
-- drawing_funcs.h. Sums and products of `int32_t` are exact here: C defines nothing where one leaves
-- its range.
pub mod Paint
pub mod Canvas
pub mod Clamp
pub mod Rectangle
pub mod Disc
pub mod Circle
pub mod Sprite
pub mod Tile
mod Tests
use csf.Base.{
  ℕ, zero, suc, ◌+◌, ◌-◌, ◌^◌, Bool, true, false, not, ◌||◌, Option, none, some, List, length,
  get_elem?, get_or, ltb, leb, if◌then◌else◌, u32,
}
use csf.Base
use csf.Base.Int.{ℤ, pos, negsuc, ◌+ℤ◌, ◌-ℤ◌, ◌*ℤ◌, pos_part, neg_part, ltb_ℤ}
use csf.Draw.{Image, to_i32, to_u32, in_bounds, compute_index, draw_pixel}

pub record Rect : Type 0 where
  pub x : ℤ
  pub y : ℤ
  pub width : ℤ
  pub height : ℤ

abbrev pub leb_ℤ : ℤ → ℤ → Bool
leb_ℤ a b = not (ltb_ℤ b a)

-- `for (k = lo; ...; ++k) s = body(k, s);`, by the rounds that are left.
unfoldable pub for_ints {ℓ} : {S : Type ℓ} → ℕ → ℤ → (ℤ → S → S) → S → S
for_ints zero lo body s = s
for_ints (suc n) lo body s = for_ints n (lo +ℤ pos 1) body (body lo s)

-- The rounds from `lo` to below `hi`.
unfoldable pub rounds : ℤ → ℤ → ℕ
rounds lo hi = pos_part (hi -ℤ lo)

-- `for (col = min_x; col < max_x; ++col) for (row = min_y; row < max_y; ++row)`.
abbrev pub for_region {ℓ} : {S : Type ℓ} → ℤ → ℤ → ℤ → ℤ → (ℤ → ℤ → S → S) → S → S
for_region min_x max_x min_y max_y body s =
    for_ints (rounds min_x max_x) min_x
      (λ col s'. for_ints (rounds min_y max_y) min_y (λ row s''. body col row s'') s') s

-- `if (v < 0) v = 0;`
unfoldable pub at_least_0 : ℤ → ℤ
at_least_0 v = if ltb_ℤ v (pos 0) then pos 0 else v

-- `if (v > size) v = size;`, where `size` is unsigned, so the test is too.
unfoldable pub at_most : ℤ → ℕ → ℤ
at_most v size = if ltb size (to_u32 v) then to_i32 size else v

unfoldable pub draw_rect : Image → Rect → ℕ → Image
draw_rect img rect color =
    if leb_ℤ rect.width (pos 0) || leb_ℤ rect.height (pos 0)
    then img
    else for_region (at_least_0 rect.x) (at_most (rect.x +ℤ rect.width) img.width)
        (at_least_0 rect.y) (at_most (rect.y +ℤ rect.height) img.height)
        (λ col row s. draw_pixel s col row color) img

-- `if (v >= size) v = size - 1;`, unsigned again.
unfoldable pub below : ℤ → ℕ → ℤ
below v size = if leb size (to_u32 v) then to_i32 (u32 (size + 2 ^ 32 - 1)) else v

unfoldable pub in_disc : ℤ → ℤ → ℤ → ℤ → ℤ → Bool
in_disc x y r j i =
    let diff_x = x -ℤ j in
    let diff_y = y -ℤ i in leb_ℤ (diff_x *ℤ diff_x +ℤ diff_y *ℤ diff_y) (r *ℤ r)

unfoldable pub disc_pixel : ℤ → ℤ → ℤ → ℕ → ℤ → ℤ → Image → Image
disc_pixel x y r color j i img =
    if not (in_bounds img j i)
    then img
    else if in_disc x y r j i
    then draw_pixel img j i color
    else img

-- Rows are the outer loop here, and both ends belong to the range.
unfoldable pub draw_circle : Image → ℤ → ℤ → ℤ → ℕ → Image
draw_circle img x y r color =
    if ltb_ℤ r (pos 0)
    then img
    else for_region (at_least_0 (y -ℤ r)) (below (y +ℤ r) img.height +ℤ pos 1) (at_least_0 (x -ℤ r))
        (below (x +ℤ r) img.width +ℤ pos 1) (λ i j s. disc_pixel x y r color j i s) img

-- `img->data[index_img] = tilemap->data[index_tile];`. An access outside of an array is `none`.
unfoldable pub copy_pixel : Image → ℕ → ℕ → Option Image → Option Image
copy_pixel tilemap index_img index_tile none = none
copy_pixel tilemap index_img index_tile (some img) = elim (get_elem? tilemap.data' index_tile) [
  | none ↦ none
  | some color ↦
      if ltb index_img (length img.data')
      then some (record img { data' = Base.set img.data' index_img color })
      else none
]

-- `if (limit < v) v = limit;`
abbrev pub at_most_ℤ : ℤ → ℤ → ℤ
at_most_ℤ v limit = if ltb_ℤ limit v then limit else v

-- One axis of a tile: where it starts in the image and in the tile, and how far it goes.
pub record Span : Type 0 where
  pub to : ℤ
  pub start : ℤ
  pub extent : ℤ

-- `if (x < 0) { start_col = -x; width -= start_col; x = 0; }`, and the test against the image.
unfoldable pub clip : ℤ → ℤ → ℕ → Span
clip x width size =
    let start = if ltb_ℤ x (pos 0) then pos 0 -ℤ x else pos 0 in
    let to = at_least_0 x in
    let extent = if ltb_ℤ x (pos 0) then width -ℤ start else width in
    record {
      to = to;
      start = start;
      extent = if ltb size (to_u32 (to +ℤ extent)) then to_i32 size -ℤ to else extent;
    }

-- The two tests that follow, against the tilemap and again against the image.
unfoldable pub limit : Span → ℕ → ℕ → ℤ → ℤ
limit span map_size size tile_at =
    at_most_ℤ (at_most_ℤ span.extent (to_i32 map_size -ℤ tile_at)) (to_i32 size -ℤ span.to)

-- The first test: an unsigned comparison for the sums.
unfoldable pub outside : Rect → Image → Bool
outside tile tilemap =
    ltb_ℤ tile.x (pos 0)
    || ltb_ℤ tile.y (pos 0)
    || ltb tilemap.width (to_u32 (tile.x +ℤ tile.width))
    || ltb tilemap.height (to_u32 (tile.y +ℤ tile.height))

-- An `int32_t` that a `size_t` is compared with.
unfoldable pub to_size : ℤ → ℕ
to_size (pos n) = n
to_size (negsuc n) = 2 ^ 64 - 1 - n

-- `for (size_t col = 0; col < width; ++col) for (size_t row = 0; row < height; ++row)`.
abbrev pub for_sizes {ℓ} : {S : Type ℓ} → ℤ → ℤ → (ℤ → ℤ → S → S) → S → S
for_sizes width height body s =
    for_ints (to_size width) (pos 0)
      (λ col s'. for_ints (to_size height) (pos 0) (λ row s''. body col row s'') s') s

unfoldable pub draw_tile : Image → ℤ → ℤ → Image → Rect → Option Image
draw_tile img x y tilemap tile =
    let cols = clip x tile.width img.width in
    let rows = clip y tile.height img.height in
    let width = limit cols tilemap.width img.width tile.x in
    let height = limit rows tilemap.height img.height tile.y in
    if outside tile tilemap
    then some img
    else if leb_ℤ cols.extent (pos 0) || leb_ℤ rows.extent (pos 0)
    then some img
    else for_sizes width height
        (λ col row s.
          copy_pixel tilemap (compute_index img (cols.to +ℤ col) (rows.to +ℤ row))
            (compute_index tilemap (tile.x +ℤ cols.start +ℤ col) (tile.y +ℤ rows.start +ℤ row)) s)
        (some img)

-- The pixel of the sprite is in bounds wherever this is called.
unfoldable pub sprite_pixel : Image → Rect → ℤ → ℤ → ℤ → ℤ → Image → Image
sprite_pixel spritemap sprite x y col row img =
    if not (in_bounds img (x +ℤ col) (y +ℤ row))
    then img
    else draw_pixel img (x +ℤ col) (y +ℤ row)
        (get_or spritemap.data' (compute_index spritemap (sprite.x +ℤ col) (sprite.y +ℤ row)) 0)

unfoldable pub draw_sprite : Image → ℤ → ℤ → Image → Rect → Image
draw_sprite img x y spritemap sprite =
    if not (in_bounds spritemap sprite.x sprite.y)
    then img
    else if not (in_bounds spritemap (sprite.x +ℤ sprite.width) (sprite.y +ℤ sprite.height))
    then img
    else for_region (pos 0) sprite.width (pos 0) sprite.height
        (λ col row s. sprite_pixel spritemap sprite x y col row s) img
