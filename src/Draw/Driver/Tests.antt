-- ===== src/Draw/Driver/Tests.antt =====
-- Runs of the driver, and the theorems at inputs that meet their hypotheses. The library is one whose
-- files are images.
use csf.Base.{ℕ, ◌≡◌, refl, true, List, [], ◌∷◌, arith, some}
use csf.Base.Int.{pos, negsuc}
use csf.Base.Text.{codes, digits}
use csf.Base.Text.Scan.{scan_digits, scan_sign, skip_space}
use csf.Draw.Shapes.{Rect}
use csf.Draw.ImageFile.{Png, truecolor_alpha, init_image, write_image, swap_words, byteswap}
use csf.Draw.Input.{scan_unsigned}
use csf.Draw.Driver.{
  Library, returns_1, wrote, run_commands, driver_main, command, size_command, rect_command,
  size_canvas,
}
use csf.Draw.Driver.Script.{Command, size, rectangle, load, AllCommands}
use csf.Draw.Driver.Ends.{IsEnd, driver_main-IsEnd}

-- A file is its header and its bytes.
abbrev Picture : Type 0
Picture = Png × List ℕ

abbrev header : ℕ → ℕ → Png
header w h = record { color_type = truecolor_alpha; bpp = 4; width = w; height = h }

abbrev one_red : Picture
one_red = (header 1 1, 255 ∷ 0 ∷ 0 ∷ 255 ∷ [])

abbrev pictures : Library Picture
pictures = record {
  file_at = λ name. one_red;
  png_open_file_read = λ f. some f.0;
  png_get_data = λ f. some f.1;
  png_set_data = λ w h bytes. some (header w h, bytes);
  malloc = λ bytes. true;
}

no_canvas_yet :
    driver_main pictures (codes "draw" ∷ codes "out" ∷ []) (codes "R 0 0 1 1 ff") ≡ returns_1
unfolding driver_main run_commands command rect_command skip_space
no_canvas_yet = refl

two_black_pixels :
    driver_main pictures (codes "draw" ∷ codes "out" ∷ []) (codes " S 2 1")
    ≡ wrote (header 2 1, 0 ∷ 0 ∷ 0 ∷ 255 ∷ 0 ∷ 0 ∷ 0 ∷ 255 ∷ [])
unfolding driver_main run_commands command size_command size_canvas scan_unsigned skip_space
    scan_sign scan_digits digits init_image write_image swap_words byteswap
two_black_pixels = refl

abbrev rect : Rect
rect = record { x = negsuc 0; y = pos 0; width = pos 3; height = pos 1 }

abbrev commands : List Command
commands = size 4 2 ∷ rectangle rect 0xff00_00ff ∷ load (pos 7) (codes "red.png") ∷ []

abbrev are_commands : AllCommands commands
are_commands = (
  (omega arith, omega arith),
  (
    (record { x = refl; y = refl; width = refl; height = refl }, omega arith),
    ((refl, (omega arith, refl, (refl, (refl, (refl, (refl, (refl, (refl, tt)))))))), tt),
  ),
)

driver_main-IsEnd_example :
    IsEnd pictures (driver_main pictures (codes "draw" ∷ codes "out" ∷ []) (codes "S 3 2 T 0 x"))
driver_main-IsEnd_example =
    driver_main-IsEnd pictures (codes "draw" ∷ codes "out" ∷ []) (codes "S 3 2 T 0 x")
