-- ===== src/Draw/Driver.antt =====
-- csf_assign02/c_driver.c: the commands, the loop and `main`. The PNG library, the files and what
-- `malloc` answers are parameters.
pub mod Ends
pub mod Script
pub mod Scanned
pub mod Drawn
mod Tests
use csf.Base.{
  ℕ, zero, suc, ◌+◌, ◌-◌, ◌*◌, ◌^◌, Bool, true, false, not, ◌&&◌, ◌||◌, List, [], ◌∷◌, Option, none,
  some, ltb, ◌==◌, if◌then◌else◌, length, get_elem?, get_or, replicate, set, u32,
}
use csf.Base.Int.{ℤ, pos, negsuc}
use csf.Base.Text.{Text, is_space, digit_of}
use csf.Base.Text.Scan.{Parsed, in_int, signed, in_range, scan_integer, skip_space}
use csf.Draw.{Image, to_u32}
use csf.Draw.Input.{
  Driver, Effect, Step, breaks, changes, error, goes_on, hex_digits, hex_number, hex_sign,
  in_unsigned, initial, refuses, scan_hex, scan_int, scan_part, scan_rect, scan_unsigned, scan_word,
  skip_0x, take_upto, then_read, undefined, with_parsed, with_word,
}
use csf.Draw.Shapes.{Rect, draw_rect, draw_circle, draw_tile, draw_sprite}
use csf.Draw.ImageFile.{Png, Reading, success, init_image, read_image, write_image}

-- The slot of a number from 0 to 7.
abbrev pub slot : ℤ → List (Option Image) → Option (Option Image)
slot (pos n) images = get_elem? images n
slot (negsuc n) images = none

abbrev pub fill : ℤ → Image → List (Option Image) → List (Option Image)
fill (pos n) img images = set images n (some img)
fill (negsuc n) img images = images

abbrev pub on_canvas : Image → Driver → Effect
on_canvas img d = changes (record d { canvas = img })

abbrev pub copied : Option Image → Driver → Effect
copied none d = breaks
copied (some img) d = on_canvas img d

-- `T` and `P`, which do not ask for a canvas.
unfoldable pub draw_part : (Image → Image → Option Image) → ℤ → Driver → Effect
draw_part draw n d = elim (slot n d.loaded_images) [
  | none ↦ refuses
  | some o ↦ elim o [ none ↦ refuses | some img ↦ copied (draw d.canvas img) d ]
]

-- The files at their paths, and the library's calls on them.
pub record Library (File : Type 0) : Type 0 where
  pub file_at : Text → File
  pub png_open_file_read : File → Option Png
  pub png_get_data : File → Option (List ℕ)
  pub png_set_data : ℕ → ℕ → List ℕ → Option File
  pub malloc : ℕ → Bool

-- How the loop ends: at the end of the input, or with `error` set.
pub data Loop : Type 0 where
  finished : Driver → Loop
  failed : Loop
  broken : Loop
  out_of_rounds : Loop

-- How the program ends: with 1, or with 0 and the file that it wrote.
pub data Ending (File : Type 0) : Type 0 where
  returns_1 : Ending File
  wrote : File → Ending File
  is_undefined : Ending File
  never : Ending File

module _ {File : Type 0} (lib : Library File) where
  unfoldable pub size_canvas : ℕ → ℕ → Driver → Effect
  size_canvas width height d =
      if lib.malloc (4 * u32 (width * height))
      then changes (record d { canvas = init_image width height; has_canvas = true })
      else refuses

  abbrev pub fill_slot : ℤ → Reading → Driver → Effect
  fill_slot n (success img) d = changes (record d { loaded_images = fill n img d.loaded_images })
  fill_slot n Reading.could_not_open d = refuses
  fill_slot n Reading.not_truecolor d = refuses
  fill_slot n Reading.malloc_failed d = refuses
  fill_slot n Reading.undefined d = breaks

  unfoldable pub load_image : ℤ → Text → Driver → Effect
  load_image n filename d = elim (slot n d.loaded_images) [
    | none ↦ refuses
    | some o ↦ elim o [
      | some img ↦ refuses
      | none ↦
          fill_slot n
            (read_image lib.png_open_file_read lib.png_get_data lib.png_set_data
              (lib.file_at filename))
            d
    ]
  ]

  unfoldable pub size_command : Text → Driver → Step
  size_command text d =
      scan_unsigned text
        (λ width r1. scan_unsigned r1 (λ height r2. then_read (size_canvas width height d) r2))

  unfoldable pub rect_command : Text → Driver → Step
  rect_command text d =
      if not d.has_canvas
      then error
      else scan_rect text (λ rect r1.
        scan_hex r1 (λ color r2. then_read (on_canvas (draw_rect d.canvas rect color) d) r2))

  unfoldable pub circle_command : Text → Driver → Step
  circle_command text d =
      if not d.has_canvas
      then error
      else scan_int text (λ x r1. scan_int r1 (λ y r2. scan_int r2 (λ r r3.
        scan_hex r3 (λ color r4. then_read (on_canvas (draw_circle d.canvas x y r color) d) r4))))

  unfoldable pub load_command : Text → Driver → Step
  load_command text d =
      scan_int text (λ n r1. scan_word r1 (λ filename r2. then_read (load_image n filename d) r2))

  unfoldable pub tile_command : Text → Driver → Step
  tile_command text d = scan_part text (λ n rect x y rest.
      then_read (draw_part (λ img tiles. draw_tile img x y tiles rect) n d) rest)

  unfoldable pub sprite_command : Text → Driver → Step
  sprite_command text d = scan_part text (λ n rect x y rest.
      then_read (draw_part (λ img sprites. some (draw_sprite img x y sprites rect)) n d) rest)

  -- The switch, on what follows the letter.
  unfoldable pub command : ℕ → Text → Driver → Step
  command cmd text d =
      if cmd == b'S'
      then size_command text d
      else if cmd == b'R'
      then rect_command text d
      else if cmd == b'C'
      then circle_command text d
      else if cmd == b'L'
      then load_command text d
      else if cmd == b'T'
      then tile_command text d
      else if cmd == b'P'
      then sprite_command text d
      else error

  -- The loop. `scanf(" %c", &cmd)` skips spaces, and fails at the end of the input.
  unfoldable pub run_commands : ℕ → Driver → Text → Loop
  run_commands zero d text = out_of_rounds
  run_commands (suc fuel) d text = elim (skip_space text) [
    | [] ↦ finished d
    | cmd ∷ rest ↦ elim (command cmd rest d) [
      | goes_on d' rest' ↦ run_commands fuel d' rest'
      | error ↦ failed
      | undefined ↦ broken
    ]
  ]

  abbrev pub saved : Option File → Ending File
  saved none = returns_1
  saved (some file) = wrote file

  -- After the loop.
  abbrev pub save : Loop → Ending File
  save (finished d) =
      saved (write_image lib.png_open_file_read lib.png_get_data lib.png_set_data d.canvas)
  save failed = returns_1
  save broken = is_undefined
  save out_of_rounds = never

  -- As many rounds as the input has characters, and one to see its end.
  unfoldable pub driver_main : List Text → Text → Ending File
  driver_main argv input =
      if not (length argv == 2)
      then returns_1
      else save (run_commands (suc (length input)) initial input)
