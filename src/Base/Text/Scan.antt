-- ===== src/Base/Text/Scan.antt =====
-- Reading words and signed integers off a text, as `std::stoi` and `scanf` do, and how much of the text
-- they take.
use Prim.Native.Nat.{ℕ, suc, ◌+◌, ◌-◌, ◌*◌, ◌^◌, ◌≤◌, ◌<◌}
use mathlib.Core.Path.{◌≡◌, refl, ◌∙◌}
use mathlib.Core.Bool.{Bool, true, false}
use mathlib.Core.List.{[], ◌∷◌}
use native.Mathlib.Omega.{arith}
use csf.Base.Int.{ℤ, pos, negsuc, ◌-ℤ◌}
use csf.Base.Lists.{length}
use csf.Base.Tests.{ltb, ◌==◌, if◌then◌else◌, if_lem}
use csf.Base.Text.{Text, is_space, is_digit, digits, print, digits-print}
use csf.Base.Text.Printed.{FrontIsDigit, print-FrontIsDigit}

unfoldable pub skip_space : Text → Text
skip_space [] = []
skip_space (c ∷ s) = let rest = skip_space s in if is_space c then rest else c ∷ s

-- A word: the characters up to the next space, and the rest.
unfoldable pub take_word : Text → Text × Text
take_word [] = ([], [])
take_word (c ∷ s) =
    let (word, rest) = take_word s in if is_space c then ([], c ∷ s) else (c ∷ word, rest)

-- An integer with the rest of the text after it, or why there is none.
pub data Parsed : Type 0 where
  parsed : ℤ → Text → Parsed
  invalid_argument : Parsed
  out_of_range : Parsed

-- The values of a 32-bit `int`.
abbrev pub in_int : ℤ → Bool
in_int (pos n) = ltb n (2 ^ 31)
in_int (negsuc n) = ltb n (2 ^ 31)

abbrev pub signed : Bool → ℕ → ℤ
signed false n = pos n
signed true n = pos 0 -ℤ pos n

abbrev pub in_range : (ℤ → Bool) → ℤ → Text → Parsed
in_range in_type value rest =
    if in_type value then Parsed.parsed value rest else Parsed.out_of_range

unfoldable pub scan_digits : (ℤ → Bool) → Bool → Text → Parsed
scan_digits in_type negative [] = Parsed.invalid_argument
scan_digits in_type negative (c ∷ s) =
    let r = digits 0 (c ∷ s) in
    if is_digit c then in_range in_type (signed negative r.0) r.1 else Parsed.invalid_argument

unfoldable pub scan_sign : (ℤ → Bool) → Text → Parsed
scan_sign in_type [] = Parsed.invalid_argument
scan_sign in_type (c ∷ s) =
    if c == b'-'
    then scan_digits in_type true s
    else if c == b'+'
    then scan_digits in_type false s
    else scan_digits in_type false (c ∷ s)

abbrev pub scan_integer : (ℤ → Bool) → Text → Parsed
scan_integer in_type s = scan_sign in_type (skip_space s)

pub length-skip_space : (s : Text) → length (skip_space s) ≤ length s
unfolding skip_space
length-skip_space [] = omega arith
length-skip_space (c ∷ s) =
    if_lem (λ (r : Text). length r ≤ suc (length s)) (is_space c)
      (λ _. omega (arith, length-skip_space s)) (λ _. omega arith)

pub length-take_word : (s : Text) → length (take_word s).1 ≤ length s
unfolding take_word
length-take_word [] = omega arith
length-take_word (c ∷ s) =
    if_lem (λ (r : Text × Text). length r.1 ≤ suc (length s)) (is_space c) (λ _. omega arith)
      (λ _. omega (arith, length-take_word s))

pub length-digits : (n : ℕ) (s : Text) → length (digits n s).1 ≤ length s
unfolding digits
length-digits n [] = omega arith
length-digits n (c ∷ s) =
    if_lem (λ (r : ℕ × Text). length r.1 ≤ suc (length s)) (is_digit c)
      (λ _. omega (arith, length-digits (10 * n + (c - b'0')) s)) (λ _. omega arith)

-- The decimal digits of an integer, in front of `acc`.
unfoldable pub print_integer : ℤ → Text → Text
print_integer (pos n) acc = print 10 n acc
print_integer (negsuc n) acc = b'-' ∷ print 10 (suc n) acc

-- A text of digits is read without a sign.
scan_integer-FrontIsDigit :
    (in_type : ℤ → Bool) (s : Text)
    → FrontIsDigit s
    → scan_integer in_type s ≡ scan_digits in_type false s
unfolding scan_sign skip_space FrontIsDigit
scan_integer-FrontIsDigit in_type [] h = elim h [ ]
scan_integer-FrontIsDigit in_type (c ∷ s) h = ground arith

scan_digits-FrontIsDigit :
    (in_type : ℤ → Bool) (negative : Bool) (s : Text)
    → FrontIsDigit s
    → scan_digits in_type negative s
      ≡ in_range in_type (signed negative (digits 0 s).0) (digits 0 s).1
unfolding scan_digits FrontIsDigit
scan_digits-FrontIsDigit in_type negative [] h = elim h [ ]
scan_digits-FrontIsDigit in_type negative (c ∷ s) h =
    let e : is_digit c ≡ true = ground arith in rw e

-- No digit is in front.
abbrev pub AtDigitsEnd : Text → Type 0
AtDigitsEnd [] = Unit {0}
AtDigitsEnd (c ∷ s) = is_digit c ≡ false

pub digits-AtDigitsEnd : (n : ℕ) (acc : Text) → AtDigitsEnd acc → digits n acc ≡ (n, acc)
unfolding digits
digits-AtDigitsEnd n [] h = refl
digits-AtDigitsEnd n (c ∷ s) h = rw h

-- A printed number is read back, in front of any text that does not start with a digit.
pub scan_integer-print :
    (in_type : ℤ → Bool) (n : ℕ) (acc : Text)
    → n < 10 ^ 10
    → in_type (pos n) ≡ true
    → AtDigitsEnd acc
    → scan_integer in_type (print 10 n acc) ≡ Parsed.parsed (pos n) acc
scan_integer-print in_type n acc h t a =
    let front = print-FrontIsDigit 9 n acc in
    let e = digits-print 9 n acc h ∙ digits-AtDigitsEnd n acc a in
    scan_integer-FrontIsDigit in_type (print 10 n acc) front
    ∙ scan_digits-FrontIsDigit in_type false (print 10 n acc) front
    ∙ rw (e, t)

-- A printed integer is read back, in front of any text that does not start with a digit.
pub scan_integer-print_integer :
    (in_type : ℤ → Bool) (v : ℤ) (acc : Text)
    → in_int v ≡ true
    → in_type v ≡ true
    → AtDigitsEnd acc
    → scan_integer in_type (print_integer v acc) ≡ Parsed.parsed v acc
unfolding print_integer scan_sign skip_space ◌-ℤ◌
scan_integer-print_integer in_type (pos n) acc h t a =
    scan_integer-print in_type n acc (ground arith) t a
scan_integer-print_integer in_type (negsuc n) acc h t a =
    let front = print-FrontIsDigit 9 (suc n) acc in
    let e = digits-print 9 (suc n) acc (ground arith) ∙ digits-AtDigitsEnd (suc n) acc a in
    let value : signed true (suc n) ≡ negsuc n = ground arith in
    scan_digits-FrontIsDigit in_type true (print 10 (suc n) acc) front ∙ rw (e, value, t)
