-- ===== src/Draw/ImageFile/Tests.antt =====
-- Files of a library that keeps what it is given.
use csf.Base.{ℕ, ◌≡◌, refl, sym, ap, List, [], ◌∷◌, Option, none, some, arith}
use csf.Draw.{Image}
use csf.Draw.Pixel.{IsImage}
use csf.Draw.ImageFile.{
  byteswap, swap_words, expand_rgb, truecolor, Png, success, read_pixels, read_image, write_image,
}
use csf.Draw.ImageFile.Roundtrip.{rgba, read_image-write_image}

abbrev PngFile : Type 0
PngFile = Png × List ℕ

abbrev header_of : PngFile → Option Png
header_of (png, bytes) = some png

abbrev bytes_in : PngFile → Option (List ℕ)
bytes_in (png, bytes) = some bytes

abbrev new_file : ℕ → ℕ → List ℕ → Option PngFile
new_file width height bytes = some (rgba width height, bytes)

abbrev of_option {ℓ} : {A : Type ℓ} → (PngFile → Option A) → Option PngFile → Option A
of_option f none = none
of_option f (some file) = f file

new_file_lem :
    (width height : ℕ) (bytes : List ℕ) (file : PngFile)
    → new_file width height bytes ≡ some file
    → (header_of file ≡ some (rgba width height)) × (bytes_in file ≡ some bytes)
new_file_lem width height bytes file e =
    (ap (of_option header_of) (sym e), ap (of_option bytes_in) (sym e))

abbrev two_pixels : Image
two_pixels = record { width = 2; height = 1; data' = 0x1122_3344 ∷ 0x0000_00ff ∷ [] }

two_pixels-IsImage : IsImage two_pixels
two_pixels-IsImage = record {
  size = refl;
  small = omega arith;
  width_small = omega arith;
  height_small = omega arith;
}

abbrev two_bytes : List ℕ
two_bytes = 0x11 ∷ 0x22 ∷ 0x33 ∷ 0x44 ∷ 0 ∷ 0 ∷ 0 ∷ 0xff ∷ []

written : write_image header_of bytes_in new_file two_pixels ≡ some (rgba 2 1, two_bytes)
unfolding write_image swap_words byteswap
written = refl

-- Without an alpha channel the pixels become opaque.
opaque :
    read_image header_of bytes_in new_file
      (record { color_type = truecolor; bpp = 3; width = 1; height = 1 }, 1 ∷ 2 ∷ 3 ∷ [])
    ≡ success (record { width = 1; height = 1; data' = 0x0102_03ff ∷ [] })
unfolding read_image read_pixels expand_rgb
opaque = refl

read_image-write_image_example :
    read_image header_of bytes_in new_file (rgba 2 1, two_bytes) ≡ success two_pixels
read_image-write_image_example =
    read_image-write_image header_of bytes_in new_file new_file_lem two_pixels (rgba 2 1, two_bytes)
      two_pixels-IsImage (omega arith) written
