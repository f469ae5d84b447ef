-- ===== src/Draw/ImageFile/Roundtrip.antt =====
-- Reading a PNG file that was written.
use csf.Base.{
  ℕ, zero, suc, ◌+◌, ◌*◌, ◌^◌, ◌<◌, ◌≡◌, refl, ap, ap₂, ◌∙◌, arith, List, [], ◌∷◌, Option, some,
  true, leb, length, length-replicate, bit_or, u32, ◌<<<◌,
}
use csf.Base.Bits.{bit_or-eq-add}
use csf.Draw.{Image}
use csf.Draw.Pixel.{IsImage}
use csf.Draw.ImageFile.{
  init_image, byte, byteswap, bytes_of, words_of, swap_words, truecolor_alpha, Png, success,
  read_pixels, read_open, read_image, write_image,
}

-- The word with its bytes the other way round.
abbrev reversed : ℕ → ℕ
reversed v = byte 0 v * 2 ^ 24 + byte 1 v * 2 ^ 16 + byte 2 v * 2 ^ 8 + byte 3 v

joined :
    (a b c d : ℕ)
    → a < 256
    → b < 256
    → c < 256
    → d < 256
    → bit_or (bit_or (bit_or (a <<< 24) (b <<< 16)) (c <<< 8)) d
      ≡ a * 2 ^ 24 + b * 2 ^ 16 + c * 2 ^ 8 + d
joined a b c d ha hb hc hd =
    let e1 : bit_or (a <<< 24) (b <<< 16) ≡ (a * 2 ^ 8 + b) * 2 ^ 16 =
      bit_or-eq-add 24 a (b * 2 ^ 16) (omega arith) ∙ omega arith in
    let e2 : bit_or ((a * 2 ^ 8 + b) * 2 ^ 16) (c <<< 8) ≡ (a * 2 ^ 16 + b * 2 ^ 8 + c) * 2 ^ 8 =
      bit_or-eq-add 16 (a * 2 ^ 8 + b) (c * 2 ^ 8) (omega arith) ∙ omega arith in
    ap (λ v. bit_or (bit_or v (c <<< 8)) d) e1
    ∙ ap (λ v. bit_or v d) e2
    ∙ bit_or-eq-add 8 (a * 2 ^ 16 + b * 2 ^ 8 + c) d hd
    ∙ omega arith

byteswap-reversed : (v : ℕ) → byteswap v ≡ reversed v
unfolding byteswap
byteswap-reversed v =
    joined (byte 0 v) (byte 1 v) (byte 2 v) (byte 3 v) (omega arith) (omega arith) (omega arith)
      (omega arith)

reversed_twice : (v : ℕ) → v < 2 ^ 32 → reversed (reversed v) ≡ v
reversed_twice v h = omega arith

-- Swapping the bytes of a 32-bit word twice gives it back.
pub byteswap_twice : (v : ℕ) → v < 2 ^ 32 → byteswap (byteswap v) ≡ v
byteswap_twice v h =
    byteswap-reversed (byteswap v) ∙ ap reversed (byteswap-reversed v) ∙ reversed_twice v h

byteswap_small : (v : ℕ) → byteswap v < 2 ^ 32
byteswap_small v = omega (arith, byteswap-reversed v)

word_lem :
    (v : ℕ) → v < 2 ^ 32 → byte 0 v + 2 ^ 8 * byte 1 v + 2 ^ 16 * byte 2 v + 2 ^ 24 * byte 3 v ≡ v
word_lem v h = omega arith

-- Each pixel is a 32-bit word.
abbrev pub IsPixels : List ℕ → Type 0
IsPixels [] = Unit {0}
IsPixels (w ∷ ws) = (w < 2 ^ 32) × IsPixels ws

words_of-bytes_of : (ws : List ℕ) → IsPixels ws → words_of (bytes_of ws) ≡ ws
words_of-bytes_of [] h = refl
words_of-bytes_of (w ∷ ws) h = ap₂ (λ a b. a ∷ b) (word_lem w h.0) (words_of-bytes_of ws h.1)

swap_words-IsPixels : (n : ℕ) (ws : List ℕ) → IsPixels (swap_words n ws)
unfolding swap_words
swap_words-IsPixels zero ws = tt
swap_words-IsPixels (suc n) [] = tt
swap_words-IsPixels (suc n) (w ∷ ws) = (byteswap_small w, swap_words-IsPixels n ws)

swapped_twice :
    (n : ℕ) (ws : List ℕ) → IsPixels ws → length ws ≡ n → swap_words n (swap_words n ws) ≡ ws
unfolding swap_words
swapped_twice zero [] h e = refl
swapped_twice zero (w ∷ ws) h e = absurd (omega arith)
swapped_twice (suc n) [] h e = refl
swapped_twice (suc n) (w ∷ ws) h e =
    ap₂ (λ a b. a ∷ b) (byteswap_twice w h.0) (swapped_twice n ws h.1 (omega arith))

length-swap_words : (n : ℕ) (ws : List ℕ) → length ws ≡ n → length (swap_words n ws) ≡ n
unfolding swap_words
length-swap_words zero ws h = refl
length-swap_words (suc n) [] h = h
length-swap_words (suc n) (w ∷ ws) h = ap suc (length-swap_words n ws (omega arith))

length-bytes_of : (ws : List ℕ) → length (bytes_of ws) ≡ 4 * length ws
length-bytes_of [] = refl
length-bytes_of (w ∷ ws) = omega (arith, length-bytes_of ws)

-- The header of a file with eight bits in each of four channels.
abbrev pub rgba : ℕ → ℕ → Png
rgba width height = record { color_type = truecolor_alpha; bpp = 4; width = width; height = height }

rounds_lem : (img : Image) → IsImage img → length img.data' ≡ u32 (img.width * img.height)
rounds_lem img h = omega (arith, h.size, h.small)

same_data : (img : Image) (ws : List ℕ) → ws ≡ img.data' → record img { data' = ws } ≡ img
same_data img ws e = ap (λ v. record img { data' = v }) e

-- With a library that opens what it has written, with the sizes and the bytes that it was given, reading
-- the file that an image was written to gives the image, where each pixel is a 32-bit word.
pub read_image-write_image :
    {File : Type 0} (png_open_file_read : File → Option Png) (png_get_data : File → Option (List ℕ))
    (png_set_data : ℕ → ℕ → List ℕ → Option File)
    → ((width height : ℕ) (bytes : List ℕ) (file : File)
        → png_set_data width height bytes ≡ some file
        → (png_open_file_read file ≡ some (rgba width height)) × (png_get_data file ≡ some bytes))
    → (img : Image) (file : File) → IsImage img
    → IsPixels img.data'
    → write_image png_open_file_read png_get_data png_set_data img ≡ some file
    → read_image png_open_file_read png_get_data png_set_data file ≡ success img
unfolding read_image write_image read_pixels
read_image-write_image png_open_file_read png_get_data png_set_data law img file h p e =
    let n = u32 (img.width * img.height) in
    let swapped = swap_words n img.data' in
    let (opened, data') = law img.width img.height (bytes_of swapped) file e in
    let fits : leb (length (bytes_of swapped)) (n * 4) ≡ true =
      ground (arith, length-bytes_of swapped, length-swap_words n img.data' (rounds_lem img h)) in
    ap₂ read_open opened data'
    ∙ rw fits (
        ap success (
          same_data img (swap_words n (words_of (bytes_of swapped))) (
            ap (swap_words n) (words_of-bytes_of swapped (swap_words-IsPixels n img.data'))
            ∙ swapped_twice n img.data' p (rounds_lem img h))))

-- A new image is one that the drawing functions work on, unless it has too many pixels.
pub init_image-IsImage :
    (width height : ℕ)
    → width < 2 ^ 31
    → height < 2 ^ 31
    → width * height < 2 ^ 31
    → IsImage (init_image width height)
unfolding init_image
init_image-IsImage width height hw hh h = record {
  size = length-replicate (u32 (width * height)) 0x0000_00ff ∙ omega (arith, h);
  small = h;
  width_small = hw;
  height_small = hh;
}
