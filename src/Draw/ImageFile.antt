-- ===== src/Draw/ImageFile.antt =====
-- csf_assign02/image.c, on a machine that stores the lowest byte of a word first, where `malloc` succeeds.
-- The PNG library is a parameter: what it opens, reads and writes.
pub mod Roundtrip
mod Tests
use csf.Base.{
  ℕ, zero, suc, ◌+◌, ◌*◌, ◌/◌, ◌%◌, ◌^◌, ◌≤◌, ◌<◌, ◌≡◌, refl, sym, ap, ap₂, ◌∙◌, subst, Bool, true,
  false, not, ◌&&◌, ◌||◌, arith, List, [], ◌∷◌, ◌++◌, Option, none, some, ltb, leb, ◌==◌,
  if◌then◌else◌, length, replicate, bit_or, u32, ◌<<<◌,
}
use csf.Base.Bits.{bit_or-eq-add}
use csf.Draw.{Image}
use csf.Draw.Pixel.{IsImage}

-- Byte `i` of a word in memory.
abbrev pub byte : ℕ → ℕ → ℕ
byte i val = val / 2 ^ (8 * i) % 256

unfoldable pub byteswap : ℕ → ℕ
byteswap val =
    bit_or (bit_or (bit_or (byte 0 val <<< 24) (byte 1 val <<< 16)) (byte 2 val <<< 8)) (byte 3 val)

-- Every pixel is opaque black.
unfoldable pub init_image : ℕ → ℕ → Image
init_image width height = record {
  width = width;
  height = height;
  data' = replicate (u32 (width * height)) 0x0000_00ff;
}

-- The words of memory as bytes, and back.
abbrev pub bytes_of : List ℕ → List ℕ
bytes_of [] = []
bytes_of (w ∷ ws) = byte 0 w ∷ byte 1 w ∷ byte 2 w ∷ byte 3 w ∷ bytes_of ws

abbrev pub words_of : List ℕ → List ℕ
words_of (a ∷ b ∷ c ∷ d ∷ bytes) = (a + 2 ^ 8 * b + 2 ^ 16 * c + 2 ^ 24 * d) ∷ words_of bytes
words_of [] = []
words_of (a ∷ []) = []
words_of (a ∷ b ∷ []) = []
words_of (a ∷ b ∷ c ∷ []) = []

-- `for (i = 0; i < num_pixels; i++) to[i] = byteswap(from[i]);`
unfoldable pub swap_words : ℕ → List ℕ → List ℕ
swap_words zero ws = []
swap_words (suc n) [] = []
swap_words (suc n) (w ∷ ws) = byteswap w ∷ swap_words n ws

-- The loop that adds the alpha channel.
unfoldable pub expand_rgb : ℕ → List ℕ → List ℕ
expand_rgb zero raw = []
expand_rgb (suc n) (r ∷ g ∷ b ∷ raw) =
    bit_or (bit_or (bit_or (r <<< 24) (g <<< 16)) (b <<< 8)) 255 ∷ expand_rgb n raw
expand_rgb (suc n) [] = []
expand_rgb (suc n) (r ∷ []) = []
expand_rgb (suc n) (r ∷ g ∷ []) = []

pub data ColorType : Type 0 where
  truecolor truecolor_alpha other : ColorType

-- What `png_open_file_read` finds out.
pub record Png : Type 0 where
  pub color_type : ColorType
  pub bpp : ℕ
  pub width : ℕ
  pub height : ℕ

pub data Reading : Type 0 where
  success : Image → Reading
  could_not_open : Reading
  not_truecolor : Reading
  malloc_failed : Reading
  undefined : Reading

-- The data goes into a buffer, and `undefined` is a step beyond its end.
abbrev pub with_pixels : Png → Option (List ℕ) → (List ℕ → Bool) → (ℕ → List ℕ → List ℕ) → Reading
with_pixels png none in_buffer pixels = malloc_failed
with_pixels png (some raw) in_buffer pixels =
    if in_buffer raw
    then success (record {
      width = png.width;
      height = png.height;
      data' = pixels (u32 (png.width * png.height)) raw;
    })
    else undefined

-- The pixels of an open file. The bytes of the buffer for RGB, and the index `i * 3` into it, are
-- `unsigned`: where three times the number of pixels is not, the loop leaves the buffer.
unfoldable pub read_pixels : Png → Option (List ℕ) → Reading
read_pixels png raw =
    let num_pixels = u32 (png.width * png.height) in
    elim png.color_type [
      | truecolor ↦
          if png.bpp == 3
          then with_pixels png raw
              (λ bytes. ltb (num_pixels * 3) (2 ^ 32) && leb (length bytes) (num_pixels * 3))
              expand_rgb
          else not_truecolor
      | truecolor_alpha ↦
          if png.bpp == 4
          then with_pixels png raw (λ bytes. leb (length bytes) (num_pixels * 4))
              (λ n bytes. swap_words n (words_of bytes))
          else not_truecolor
      | other ↦ not_truecolor
    ]

abbrev pub read_open : Option Png → Option (List ℕ) → Reading
read_open none raw = could_not_open
read_open (some png) raw = read_pixels png raw

-- The file that is read, and the data that is written, of a library.
module _ {File : Type 0} (png_open_file_read : File → Option Png)
    (png_get_data : File → Option (List ℕ)) (png_set_data : ℕ → ℕ → List ℕ → Option File) where
  unfoldable pub read_image : File → Reading
  read_image file = read_open (png_open_file_read file) (png_get_data file)

  -- With eight bits in each of four channels. `none` is an error.
  unfoldable pub write_image : Image → Option File
  write_image img =
      png_set_data img.width img.height
        (bytes_of (swap_words (u32 (img.width * img.height)) img.data'))
