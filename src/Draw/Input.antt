-- ===== src/Draw/Input.antt =====
-- csf_assign02/c_driver.c: the variables of `main`, and what `scanf` reads of the input. A number that its
-- type does not hold is left undefined there.
pub mod Rest
use csf.Base.{
  ℕ, zero, suc, ◌+◌, ◌-◌, ◌*◌, ◌^◌, Bool, true, false, not, ◌&&◌, ◌||◌, List, [], ◌∷◌, Option, none,
  some, ltb, ◌==◌, if◌then◌else◌, length, get_elem?, get_or, replicate, set, u32,
}
use csf.Base.Int.{ℤ, pos, negsuc}
use csf.Base.Text.{Text, is_space, digit_of}
use csf.Base.Text.Scan.{Parsed, in_int, signed, in_range, scan_integer, skip_space}
use csf.Draw.{Image, to_u32}
use csf.Draw.Shapes.{Rect, draw_rect, draw_circle, draw_tile, draw_sprite}
use csf.Draw.ImageFile.{Png, Reading, success, init_image, read_image, write_image}

-- The variables of `main` that live through the loop; `has_canvas` is that `canvas.data` is not NULL,
-- and a slot that is `none` has no data.
pub record Driver : Type 0 where
  pub canvas : Image
  pub has_canvas : Bool
  pub loaded_images : List (Option Image)

abbrev pub initial : Driver
initial = record {
  canvas = record { width = 0; height = 0; data' = [] };
  has_canvas = false;
  loaded_images = replicate 8 none;
}

-- What a command does when it is read: it changes the variables, sets `error`, or does what C does
-- not define.
pub data Effect : Type 0 where
  changes : Driver → Effect
  refuses : Effect
  breaks : Effect

-- The same, with the rest of the input.
pub data Step : Type 0 where
  goes_on : Driver → Text → Step
  error : Step
  undefined : Step

abbrev pub then_read : Effect → Text → Step
then_read (changes d) rest = goes_on d rest
then_read refuses rest = error
then_read breaks rest = undefined

abbrev pub with_parsed : Parsed → (ℤ → Text → Step) → Step
with_parsed (Parsed.parsed v rest) next = next v rest
with_parsed Parsed.invalid_argument next = error
with_parsed Parsed.out_of_range next = undefined

-- `%d`.
unfoldable pub scan_int : Text → (ℤ → Text → Step) → Step
scan_int text next = with_parsed (scan_integer in_int text) next

-- The values of an `unsigned`, with a minus that negates it.
abbrev pub in_unsigned : ℤ → Bool
in_unsigned (pos n) = ltb n (2 ^ 32)
in_unsigned (negsuc n) = ltb n (2 ^ 32 - 1)

-- `%u`.
unfoldable pub scan_unsigned : Text → (ℕ → Text → Step) → Step
scan_unsigned text next =
    with_parsed (scan_integer in_unsigned text) (λ v rest. next (to_u32 v) rest)

unfoldable pub hex_digits : ℕ → Text → ℕ × Text
hex_digits n [] = (n, [])
hex_digits n (c ∷ s) =
    let rest = hex_digits (16 * n + digit_of c) s in
    if ltb (digit_of c) 16 then rest else (n, c ∷ s)

unfoldable pub hex_number : Bool → Text → Parsed
hex_number negative [] = Parsed.invalid_argument
hex_number negative (c ∷ s) =
    let r = hex_digits 0 (c ∷ s) in
    if ltb (digit_of c) 16
    then in_range in_unsigned (signed negative r.0) r.1
    else Parsed.invalid_argument

-- The `0x` in front.
unfoldable pub skip_0x : Text → Text
skip_0x [] = []
skip_0x (c ∷ []) = c ∷ []
skip_0x (c ∷ d ∷ s) = if c == b'0' && (d == b'x' || d == b'X') then s else c ∷ d ∷ s

unfoldable pub hex_sign : Text → Parsed
hex_sign [] = Parsed.invalid_argument
hex_sign (c ∷ s) =
    if c == b'-'
    then hex_number true (skip_0x s)
    else if c == b'+'
    then hex_number false (skip_0x s)
    else hex_number false (skip_0x (c ∷ s))

-- `%x`.
unfoldable pub scan_hex : Text → (ℕ → Text → Step) → Step
scan_hex text next = with_parsed (hex_sign (skip_space text)) (λ v rest. next (to_u32 v) rest)

-- At most `n` characters up to a space, and the rest.
unfoldable pub take_upto : ℕ → Text → Text × Text
take_upto zero s = ([], s)
take_upto (suc n) [] = ([], [])
take_upto (suc n) (c ∷ s) =
    let (word, rest) = take_upto n s in if is_space c then ([], c ∷ s) else (c ∷ word, rest)

abbrev pub with_word : Text × Text → (Text → Text → Step) → Step
with_word ([], rest) next = error
with_word (c ∷ word, rest) next = next (c ∷ word) rest

-- `skipws(stdin)` and `%255s`.
unfoldable pub scan_word : Text → (Text → Text → Step) → Step
scan_word text next = with_word (take_upto 255 (skip_space text)) next

-- Four numbers in one call of `scanf`.
unfoldable pub scan_rect : Text → (Rect → Text → Step) → Step
scan_rect text next = scan_int text (λ x r1. scan_int r1 (λ y r2. scan_int r2 (λ width r3.
    scan_int r3 (λ height r4. next (record { x = x; y = y; width = width; height = height }) r4))))

-- Seven numbers, of `T` and `P`.
unfoldable pub scan_part : Text → (ℤ → Rect → ℤ → ℤ → Text → Step) → Step
scan_part text next = scan_int text (λ n r1.
    scan_rect r1 (λ rect r2. scan_int r2 (λ x r3. scan_int r3 (λ y r4. next n rect x y r4))))
