-- ===== src/Draw/Driver/Ends.antt =====
-- The loop of the driver ends.
use csf.Base.{
  ℕ, zero, suc, ◌≤◌, ◌<◌, Bool, not, arith, List, [], ◌∷◌, Option, none, some, ◌==◌, if◌then◌else◌,
  if_lem, length,
}
use csf.Base.Int.{ℤ}
use csf.Base.Text.{Text}
use csf.Base.Text.Scan.{skip_space, length-skip_space}
use csf.Draw.Shapes.{Rect, draw_tile, draw_sprite}
use csf.Draw.Input.{Driver, Step, goes_on, error, undefined, initial, scan_rect, scan_part}
use csf.Draw.Driver.{
  size_command, rect_command, circle_command, load_command, tile_command, sprite_command,
  size_canvas, load_image, draw_part, Library, Loop, finished, failed, broken, out_of_rounds,
  Ending, returns_1, wrote, is_undefined, never, command, run_commands, save, driver_main, saved,
}
use csf.Draw.Input.Rest.{
  Leaves, then_read-Leaves, scan_int-Leaves, scan_unsigned-Leaves, scan_hex-Leaves,
  scan_word-Leaves,
}

module _ (text : Text) (n : ℕ) (h : length text ≤ n) where
  scan_rect-Leaves :
      (next : Rect → Text → Step)
      → ((r : Rect) (rest : Text) → length rest ≤ n → Leaves n (next r rest))
      → Leaves n (scan_rect text next)
  unfolding scan_rect
  scan_rect-Leaves next k = scan_int-Leaves text n h _ (λ x r1 h1.
      scan_int-Leaves r1 n h1 _ (λ y r2 h2.
        scan_int-Leaves r2 n h2 _ (λ w r3 h3. scan_int-Leaves r3 n h3 _ (λ v r4 h4. k _ r4 h4))))

  scan_part-Leaves :
      (next : ℤ → Rect → ℤ → ℤ → Text → Step)
      → ((i : ℤ) (r : Rect) (x y : ℤ) (rest : Text)
          → length rest ≤ n
          → Leaves n (next i r x y rest))
      → Leaves n (scan_part text next)
  unfolding scan_part scan_rect
  scan_part-Leaves next k = scan_int-Leaves text n h _ (λ i r1 h1.
      scan_int-Leaves r1 n h1 _ (λ a r2 h2. scan_int-Leaves r2 n h2 _ (λ b r3 h3.
        scan_int-Leaves r3 n h3 _ (λ c r4 h4. scan_int-Leaves r4 n h4 _ (λ d r5 h5.
          scan_int-Leaves r5 n h5 _
            (λ x r6 h6. scan_int-Leaves r6 n h6 _ (λ y r7 h7. k i _ x y r7 h7)))))))

-- One of the commands is that of the letter.
if-Leaves :
    (n : ℕ) (test : Bool) (s t : Step) → Leaves n s → Leaves n t → Leaves n (if test then s else t)
if-Leaves n test s t a b = if_lem (λ (r : Step). Leaves n r) test (λ _. a) (λ _. b)

module _ {File : Type 0} (lib : Library File) where
  module _ (text : Text) (d : Driver) (n : ℕ) (h : length text ≤ n) where
    size_command-Leaves : Leaves n (size_command lib text d)
    unfolding size_command
    size_command-Leaves = scan_unsigned-Leaves text n h _ (λ width r1 h1.
        scan_unsigned-Leaves r1 n h1 _
          (λ height r2 h2. then_read-Leaves (size_canvas lib width height d) r2 n h2))

    rect_command-Leaves : Leaves n (rect_command lib text d)
    unfolding rect_command
    rect_command-Leaves =
        if-Leaves n (not d.has_canvas) error _ tt (
          scan_rect-Leaves text n h _ (λ rect r1 h1. scan_hex-Leaves r1 n h1 _ (λ color r2 h2. h2)))

    circle_command-Leaves : Leaves n (circle_command lib text d)
    unfolding circle_command
    circle_command-Leaves = if-Leaves n (not d.has_canvas) error _ tt (
        scan_int-Leaves text n h _ (λ x r1 h1. scan_int-Leaves r1 n h1 _ (λ y r2 h2.
          scan_int-Leaves r2 n h2 _ (λ r r3 h3. scan_hex-Leaves r3 n h3 _ (λ color r4 h4. h4)))))

    load_command-Leaves : Leaves n (load_command lib text d)
    unfolding load_command
    load_command-Leaves = scan_int-Leaves text n h _ (λ i r1 h1.
        scan_word-Leaves r1 n h1 _
          (λ filename r2 h2. then_read-Leaves (load_image lib i filename d) r2 n h2))

    tile_command-Leaves : Leaves n (tile_command lib text d)
    unfolding tile_command
    tile_command-Leaves = scan_part-Leaves text n h _ (λ i rect x y rest h1.
        then_read-Leaves (draw_part (λ img tiles. draw_tile img x y tiles rect) i d) rest n h1)

    sprite_command-Leaves : Leaves n (sprite_command lib text d)
    unfolding sprite_command
    sprite_command-Leaves = scan_part-Leaves text n h _ (λ i rect x y rest h1.
        then_read-Leaves (draw_part (λ img sprites. some (draw_sprite img x y sprites rect)) i d)
          rest n h1)

    pub command-Leaves : (cmd : ℕ) → Leaves n (command lib cmd text d)
    unfolding command
    command-Leaves cmd = if-Leaves n (cmd == b'S') _ _ size_command-Leaves (
        if-Leaves n (cmd == b'R') _ _ rect_command-Leaves (
          if-Leaves n (cmd == b'C') _ _ circle_command-Leaves (
            if-Leaves n (cmd == b'L') _ _ load_command-Leaves (
              if-Leaves n (cmd == b'T') _ _ tile_command-Leaves
                (if-Leaves n (cmd == b'P') _ error sprite_command-Leaves tt)))))

  abbrev Ends : Loop → Type 0
  Ends (finished d) = Unit {0}
  Ends failed = Unit {0}
  Ends broken = Unit {0}
  Ends out_of_rounds = ⊥

  module _ (fuel : ℕ)
      (again : (d : Driver) (t : Text) → length t < fuel → Ends (run_commands lib fuel d t)) where
    step-Ends :
        (s : Step) (n : ℕ)
        → Leaves n s
        → n < fuel
        → Ends (elim s [
          | goes_on d' rest' ↦ run_commands lib fuel d' rest'
          | error ↦ failed
          | undefined ↦ broken
        ])
    step-Ends (goes_on d rest) n l h = again d rest (omega arith)
    step-Ends error n l h = tt
    step-Ends undefined n l h = tt

    line-Ends :
        (t : Text) (d : Driver)
        → length t < suc fuel
        → Ends (elim t [
          | [] ↦ finished d
          | cmd ∷ rest ↦ elim (command lib cmd rest d) [
            | goes_on d' rest' ↦ run_commands lib fuel d' rest'
            | error ↦ failed
            | undefined ↦ broken
          ]
        ])
    line-Ends [] d h = tt
    line-Ends (cmd ∷ rest) d h =
        step-Ends (command lib cmd rest d) (length rest)
          (command-Leaves rest d (length rest) (omega arith) cmd) (omega arith)

  run_commands-Ends :
      (fuel : ℕ) (d : Driver) (t : Text) → length t < fuel → Ends (run_commands lib fuel d t)
  unfolding run_commands
  run_commands-Ends zero d t h = elim h [ ]
  run_commands-Ends (suc fuel) d t h =
      line-Ends fuel (run_commands-Ends fuel) (skip_space t) d (omega (arith, length-skip_space t))

  abbrev pub IsEnd : Ending File → Type 0
  IsEnd never = ⊥
  IsEnd returns_1 = Unit {0}
  IsEnd (wrote file) = Unit {0}
  IsEnd is_undefined = Unit {0}

  saved-IsEnd : (o : Option File) → IsEnd (saved lib o)
  saved-IsEnd none = tt
  saved-IsEnd (some file) = tt

  save-IsEnd : (l : Loop) → Ends l → IsEnd (save lib l)
  save-IsEnd (finished d) h = saved-IsEnd _
  save-IsEnd failed h = tt
  save-IsEnd broken h = tt
  save-IsEnd out_of_rounds h = h

  -- On every command line and every input the loop of the driver ends within its rounds: the program
  -- returns 1, or writes its file and returns 0, unless the input leads it to a step that C does not
  -- define, such as a number that its type does not hold.
  pub driver_main-IsEnd : (argv : List Text) (input : Text) → IsEnd (driver_main lib argv input)
  unfolding driver_main
  driver_main-IsEnd argv input =
      if_lem (λ (e : Ending File). IsEnd e) (not (length argv == 2)) (λ _. tt)
        (λ _.
          save-IsEnd (run_commands lib (suc (length input)) initial input)
            (run_commands-Ends (suc (length input)) initial input (omega arith)))
