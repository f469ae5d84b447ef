-- ===== src/Draw/Driver/Script.antt =====
-- A script of commands, what it stands for, and its text.
use csf.Base.{
  ℕ, zero, suc, ◌+◌, ◌-◌, ◌/◌, ◌%◌, ◌^◌, ◌≤◌, ◌<◌, ◌≡◌, true, false, not, List, [], ◌∷◌, ◌++◌, some,
  ltb, if◌then◌else◌, length,
}
use csf.Base.Int.{ℤ, pos}
use csf.Base.Text.{Text, is_space}
use csf.Base.Text.Scan.{in_int, print_integer}
use csf.Draw.{Image}
use csf.Draw.Shapes.{Rect, draw_rect, draw_circle, draw_tile, draw_sprite}
use csf.Draw.Input.{Driver, Effect, changes, refuses, breaks}
use csf.Draw.Driver.{Library, Loop, finished, failed, broken, size_canvas, load_image, draw_part}

pub data Command : Type 0 where
  size : ℕ → ℕ → Command
  rectangle : Rect → ℕ → Command
  circle : ℤ → ℤ → ℤ → ℕ → Command
  load : ℤ → Text → Command
  tile : ℤ → Rect → ℤ → ℤ → Command
  sprite : ℤ → Rect → ℤ → ℤ → Command

abbrev pub hex_char : ℕ → ℕ
hex_char d = if ltb d 10 then b'0' + d else b'a' + (d - 10)

-- As many hexadecimal digits, in front of `acc`.
unfoldable pub print_hex : ℕ → ℕ → Text → Text
print_hex zero n acc = acc
print_hex (suc k) n acc = print_hex k (n / 16) (hex_char (n % 16) ∷ acc)

abbrev pub int : ℤ → Text → Text
int v acc = b' ' ∷ print_integer v acc

abbrev pub hex : ℕ → Text → Text
hex n acc = b' ' ∷ print_hex 8 n acc

abbrev pub ints : Rect → Text → Text
ints r acc = int r.x (int r.y (int r.width (int r.height acc)))

-- A command as it is saved, each on a line.
unfoldable pub letter : Command → ℕ
letter (size w h) = b'S'
letter (rectangle r color) = b'R'
letter (circle x y r color) = b'C'
letter (load n name) = b'L'
letter (tile n r x y) = b'T'
letter (sprite n r x y) = b'P'

unfoldable pub operands : Command → Text → Text
operands (size w h) acc = int (pos w) (int (pos h) acc)
operands (rectangle r color) acc = ints r (hex color acc)
operands (circle x y r color) acc = int x (int y (int r (hex color acc)))
operands (load n name) acc = int n (b' ' ∷ name ++ acc)
operands (tile n r x y) acc = int n (ints r (int x (int y acc)))
operands (sprite n r x y) acc = int n (ints r (int x (int y acc)))

unfoldable pub script : List Command → Text
script [] = []
script (c ∷ cs) = letter c ∷ operands c (10 ∷ script cs)

-- The numbers are values of their types, and a name is a word of at most 255 characters.
abbrev pub NoSpace : Text → Type 0
NoSpace [] = Unit {0}
NoSpace (c ∷ s) = (is_space c ≡ false) × NoSpace s

abbrev pub IsName : Text → Type 0
IsName [] = ⊥
IsName (c ∷ s) = (length s ≤ 254) × (is_space c ≡ false) × NoSpace s

pub record IsIntRect (r : Rect) : Type 0 where
  pub x : in_int r.x ≡ true
  pub y : in_int r.y ≡ true
  pub width : in_int r.width ≡ true
  pub height : in_int r.height ≡ true

abbrev pub IsPart : ℤ → Rect → ℤ → ℤ → Type 0
IsPart n r x y = (in_int n ≡ true) × IsIntRect r × (in_int x ≡ true) × (in_int y ≡ true)

abbrev pub IsCommand : Command → Type 0
IsCommand (size w h) = (w < 2 ^ 32) × (h < 2 ^ 32)
IsCommand (rectangle r color) = IsIntRect r × (color < 2 ^ 32)
IsCommand (circle x y r color) =
    (in_int x ≡ true) × (in_int y ≡ true) × (in_int r ≡ true) × (color < 2 ^ 32)
IsCommand (load n name) = (in_int n ≡ true) × IsName name
IsCommand (tile n r x y) = IsPart n r x y
IsCommand (sprite n r x y) = IsPart n r x y

abbrev pub AllCommands : List Command → Type 0
AllCommands [] = Unit {0}
AllCommands (c ∷ cs) = IsCommand c × AllCommands cs

-- A drawing on the canvas, which there has to be.
abbrev pub draw_on : (Image → Image) → Driver → Effect
draw_on draw d = if not d.has_canvas then refuses else changes (record d { canvas = draw d.canvas })

-- What a command means.
abbrev pub perform : {File : Type 0} → Library File → Command → Driver → Effect
perform lib (size w h) d = size_canvas lib w h d
perform lib (rectangle r color) d = draw_on (λ img. draw_rect img r color) d
perform lib (circle x y r color) d = draw_on (λ img. draw_circle img x y r color) d
perform lib (load n name) d = load_image lib n name d
perform lib (tile n r x y) d = draw_part (λ img tiles. draw_tile img x y tiles r) n d
perform lib (sprite n r x y) d = draw_part (λ img sprites. some (draw_sprite img x y sprites r)) n d

-- The commands in turn, up to one that refuses.
unfoldable pub perform_all : {File : Type 0} → Library File → List Command → Driver → Loop
perform_all lib [] d = finished d
perform_all lib (c ∷ cs) d = elim (perform lib c d) [
  | changes d' ↦ perform_all lib cs d'
  | refuses ↦ failed
  | breaks ↦ broken
]
