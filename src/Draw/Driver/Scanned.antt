-- ===== src/Draw/Driver/Scanned.antt =====
-- `scanf` reads the numbers and names that were printed.
use native.Mathlib.Nat.{pow-suc}
use csf.Base.{
  ℕ, zero, suc, ◌+◌, ◌*◌, ◌/◌, ◌%◌, ◌^◌, ◌≤◌, ◌<◌, ◌≡◌, refl, ap, ◌∙◌, Bool, true, false, ◌&&◌,
  arith, [], ◌∷◌, ◌++◌, ltb, ◌==◌, if◌then◌else◌, length, u32,
}
use csf.Base.Int.{ℤ, pos}
use csf.Base.Text.{Text, is_space, digit_of}
use csf.Base.Text.Scan.{
  Parsed, in_int, in_range, skip_space, AtDigitsEnd, scan_integer, print_integer,
  scan_integer-print, scan_integer-print_integer,
}
use csf.Draw.{to_u32}
use csf.Draw.Shapes.{Rect}
use csf.Draw.Input.{
  Step, with_parsed, in_unsigned, scan_int, scan_unsigned, hex_digits, hex_number, skip_0x,
  hex_sign, scan_hex, take_upto, with_word, scan_word, scan_rect,
}
use csf.Draw.Driver.Script.{hex_char, print_hex, int, hex, ints, NoSpace, IsName, IsIntRect}

digit_of-hex_char : (d : ℕ) → d < 16 → digit_of (hex_char d) ≡ d
digit_of-hex_char d h = ground arith

hex_digits-hex_char :
    (k d : ℕ) (s : Text) → d < 16 → hex_digits k (hex_char d ∷ s) ≡ hex_digits (16 * k + d) s
unfolding hex_digits
hex_digits-hex_char k d s h =
    let t : ltb (digit_of (hex_char d)) 16 ≡ true = ground (arith, digit_of-hex_char d h) in
    rw t (ap (λ e. hex_digits (16 * k + e) s) (digit_of-hex_char d h))

hex_digits-print_hex :
    (k n : ℕ) (acc : Text) → n < 16 ^ k → hex_digits 0 (print_hex k n acc) ≡ hex_digits n acc
unfolding print_hex
hex_digits-print_hex zero n acc h = let e : n ≡ 0 = omega arith in rw e refl
hex_digits-print_hex (suc k) n acc h =
    let e : 16 * (n / 16) + n % 16 ≡ n = omega arith in
    hex_digits-print_hex k (n / 16) (hex_char (n % 16) ∷ acc) (omega (arith, pow-suc 16 k))
    ∙ hex_digits-hex_char (n / 16) (n % 16) acc (omega arith)
    ∙ ap (λ m. hex_digits m acc) e

and_false_if : (p : Bool) (x y : Text) → (if p && false then x else y) ≡ y
and_false_if true x y = refl
and_false_if false x y = refl

skip_0x-hex_char : (c b : ℕ) (s : Text) → b < 16 → skip_0x (c ∷ hex_char b ∷ s) ≡ c ∷ hex_char b ∷ s
unfolding skip_0x
skip_0x-hex_char c b s h =
    let small : (hex_char b == b'x') ≡ false = ground arith in
    let large : (hex_char b == b'X') ≡ false = ground arith in
    rw (small, large) (and_false_if (c == b'0') s (c ∷ hex_char b ∷ s))

hex_number-digit :
    (c : ℕ) (s : Text)
    → ltb (digit_of c) 16 ≡ true
    → hex_number false (c ∷ s)
      ≡ in_range in_unsigned (pos (hex_digits 0 (c ∷ s)).0) (hex_digits 0 (c ∷ s)).1
unfolding hex_number
hex_number-digit c s h = rw h refl

-- Two hexadecimal digits are in front.
abbrev TwoHex : Text → Type 0
TwoHex t = (a b : ℕ) × (s : Text) × (a < 16) × (b < 16) × (t ≡ hex_char a ∷ hex_char b ∷ s)

hex_front :
    (a b : ℕ) (s : Text)
    → a < 16
    → b < 16
    → let t = hex_char a ∷ hex_char b ∷ s in
      hex_sign (skip_space t) ≡ in_range in_unsigned (pos (hex_digits 0 t).0) (hex_digits 0 t).1
unfolding hex_sign skip_space
hex_front a b s ha hb =
    let c = hex_char a in
    let space : is_space c ≡ false = ground arith in
    let minus : (c == b'-') ≡ false = ground arith in
    let plus : (c == b'+') ≡ false = ground arith in
    let digit : ltb (digit_of c) 16 ≡ true = ground (arith, digit_of-hex_char a ha) in
    rw (space, minus, plus, skip_0x-hex_char c b s hb) (hex_number-digit c (hex_char b ∷ s) digit)

TwoHex-hex_sign :
    (t : Text)
    → TwoHex t
    → hex_sign (skip_space t) ≡ in_range in_unsigned (pos (hex_digits 0 t).0) (hex_digits 0 t).1
TwoHex-hex_sign t (a, b, s, ha, hb, e) = rw e (hex_front a b s ha hb)

print_hex-TwoHex : (n : ℕ) (acc : Text) → TwoHex (print_hex 8 n acc)
unfolding print_hex
print_hex-TwoHex n acc = (_, _, _, omega arith, omega arith, refl)

hex_digits-newline : (n : ℕ) (acc : Text) → hex_digits n (10 ∷ acc) ≡ (n, 10 ∷ acc)
unfolding hex_digits
hex_digits-newline n acc = refl

hex_sign-print_hex :
    (n : ℕ) (acc : Text)
    → n < 2 ^ 32
    → hex_sign (skip_space (print_hex 8 n (10 ∷ acc))) ≡ Parsed.parsed (pos n) (10 ∷ acc)
hex_sign-print_hex n acc h =
    let r = hex_digits-print_hex 8 n (10 ∷ acc) (omega arith) ∙ hex_digits-newline n acc in
    let t : in_unsigned (pos n) ≡ true = ground arith in
    TwoHex-hex_sign (print_hex 8 n (10 ∷ acc)) (print_hex-TwoHex n (10 ∷ acc)) ∙ rw (r, t) refl

-- A space in front is skipped.
scan_integer-space :
    (in_type : ℤ → Bool) (s : Text) → scan_integer in_type (b' ' ∷ s) ≡ scan_integer in_type s
unfolding skip_space
scan_integer-space in_type s = refl

module _ (n : ℕ) (acc : Text) (next : ℕ → Text → Step) where
  pub scan_unsigned-int :
      n < 2 ^ 32 → AtDigitsEnd acc → scan_unsigned (int (pos n) acc) next ≡ next n acc
  unfolding scan_unsigned print_integer
  scan_unsigned-int h a =
      let e : u32 n ≡ n = omega arith in
      ap (λ p. with_parsed p (λ v rest. next (to_u32 v) rest))
        (scan_integer-space in_unsigned (print_integer (pos n) acc)
          ∙ scan_integer-print in_unsigned n acc (omega arith) (ground arith) a)
      ∙ ap (λ m. next m acc) e

  pub scan_hex-hex : n < 2 ^ 32 → scan_hex (hex n (10 ∷ acc)) next ≡ next n (10 ∷ acc)
  unfolding scan_hex skip_space
  scan_hex-hex h =
      let e : u32 n ≡ n = omega arith in
      ap (λ p. with_parsed p (λ v rest. next (to_u32 v) rest)) (hex_sign-print_hex n acc h)
      ∙ ap (λ m. next m (10 ∷ acc)) e

pub scan_int-int :
    (v : ℤ) (acc : Text) (next : ℤ → Text → Step)
    → in_int v ≡ true
    → AtDigitsEnd acc
    → scan_int (int v acc) next ≡ next v acc
unfolding scan_int skip_space
scan_int-int v acc next h a =
    ap (λ p. with_parsed p next) (scan_integer-print_integer in_int v acc h h a)

pub scan_rect-ints :
    (r : Rect) (acc : Text) (next : Rect → Text → Step)
    → IsIntRect r
    → AtDigitsEnd acc
    → scan_rect (ints r acc) next ≡ next r acc
unfolding scan_rect
scan_rect-ints r acc next h a =
    scan_int-int r.x _ _ h.x refl
    ∙ scan_int-int r.y _ _ h.y refl
    ∙ scan_int-int r.width _ _ h.width refl
    ∙ scan_int-int r.height acc _ h.height a

take_upto-name :
    (n : ℕ) (name rest : Text)
    → length name ≤ n
    → NoSpace name
    → take_upto n (name ++ 10 ∷ rest) ≡ (name, 10 ∷ rest)
unfolding take_upto
take_upto-name zero [] rest h s = refl
take_upto-name zero (c ∷ name) rest h s = absurd (omega arith)
take_upto-name (suc n) [] rest h s = refl
take_upto-name (suc n) (c ∷ name) rest h s =
    rw (s.0, take_upto-name n name rest (omega arith) s.1) refl

pub scan_word-name :
    (name rest : Text) (next : Text → Text → Step)
    → IsName name
    → scan_word (b' ' ∷ name ++ 10 ∷ rest) next ≡ next name (10 ∷ rest)
unfolding scan_word skip_space
scan_word-name [] rest next h = elim h [ ]
scan_word-name (c ∷ name) rest next h = rw (h.1) (
    ap (λ w. with_word w next) (take_upto-name 255 (c ∷ name) rest (omega (arith, h.0)) (h.1, h.2)))
