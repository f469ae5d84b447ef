-- ===== src/Base/Text.antt =====
-- Texts as lists of bytes, and what programs do with numbers in them.
pub mod Printed
pub mod Scan
use Prim.Native.String.{String}
use Prim.Native.Char.{code}
use native.Mathlib.Nat.{pow-suc}
use Prim.Native.Nat.{ℕ, zero, suc, ◌+◌, ◌-◌, ◌*◌, ◌/◌, ◌%◌, ◌^◌, ◌<◌}
use mathlib.Core.Path.{◌≡◌, ap, ◌∙◌}
use mathlib.Core.Logic.{inl, inr}
use mathlib.Core.Bool.{Bool, true, false, ◌&&◌, ◌||◌}
use mathlib.Core.List.{List, [], ◌∷◌}
use native.Mathlib.Omega.{arith}
use csf.Base.Tests.{ltb, leb, ◌==◌, if◌then◌else◌, Bool-cases}

abbrev pub Text : Type 0
Text = List ℕ

abbrev pub codes : String → Text
codes String.[] = []
codes (String.◌∷◌ c s) = code c ∷ codes s

-- `operator==` on strings.
abbrev pub same_text : Text → Text → Bool
same_text [] [] = true
same_text [] (d ∷ t) = false
same_text (c ∷ s) [] = false
same_text (c ∷ s) (d ∷ t) = c == d && same_text s t

-- `isspace` in the C locale: what `>>` skips and stops at.
abbrev pub is_space : ℕ → Bool
is_space c = c == 32 || leb 9 c && leb c 13

abbrev pub is_digit : ℕ → Bool
is_digit c = leb b'0' c && leb c b'9'

-- The digit that a character is, 16 for none.
abbrev pub digit_of : ℕ → ℕ
digit_of c =
    if is_digit c
    then c - b'0'
    else if leb b'a' c && leb c b'f'
    then c - b'a' + 10
    else if leb b'A' c && leb c b'F'
    then c - b'A' + 10
    else 16

-- The number of the digits at the front, after `n`, and the rest of the text.
unfoldable pub digits : ℕ → Text → ℕ × Text
digits n [] = (n, [])
digits n (c ∷ s) =
    let rest = digits (10 * n + (c - b'0')) s in if is_digit c then rest else (n, c ∷ s)

-- The decimal digits of a number, in front of `acc`. Fuel is the number of digits at most.
unfoldable pub print : ℕ → ℕ → Text → Text
print zero n acc = acc
print (suc fuel) n acc =
    let acc' = (b'0' + n % 10) ∷ acc in
    let rest = print fuel (n / 10) acc' in if n / 10 == 0 then acc' else rest

-- `strtoul` with base 10 on a 64-bit machine: what it returns, and the text at `end`. A minus negates in
-- the unsigned type, and a number out of range is the largest one.
abbrev pub unsigned : Bool → ℕ → ℕ
unsigned negative n =
    if ltb n (2 ^ 64) then if negative then (2 ^ 64 - n) % 2 ^ 64 else n else 2 ^ 64 - 1

-- With no digits the result is 0, and `end` is the whole text.
unfoldable pub strtoul_digits : Bool → Text → Text → ℕ × Text
strtoul_digits negative whole [] = (0, whole)
strtoul_digits negative whole (c ∷ s) =
    let r = digits 0 (c ∷ s) in if is_digit c then (unsigned negative r.0, r.1) else (0, whole)

unfoldable pub strtoul_sign : Text → Text → ℕ × Text
strtoul_sign whole [] = (0, whole)
strtoul_sign whole (c ∷ s) =
    if c == b'-'
    then strtoul_digits true whole s
    else if c == b'+'
    then strtoul_digits false whole s
    else strtoul_digits false whole (c ∷ s)

unfoldable pub strtoul_from : Text → Text → ℕ × Text
strtoul_from whole [] = (0, whole)
strtoul_from whole (c ∷ s) =
    let rest = strtoul_from whole s in if is_space c then rest else strtoul_sign whole (c ∷ s)

unfoldable pub strtoul : Text → ℕ × Text
strtoul s = strtoul_from s s

pub digits-digit : (k d : ℕ) (s : Text) → d < 10 → digits k ((b'0' + d) ∷ s) ≡ digits (10 * k + d) s
unfolding digits
digits-digit k d s h =
    let c : is_digit (b'0' + d) ≡ true = ground arith in
    let e : b'0' + d - b'0' ≡ d = omega arith in rw (c, e)

-- Fuel for every digit prints the number that is read.
pub digits-print :
    (fuel n : ℕ) (acc : Text) → n < 10 ^ suc fuel → digits 0 (print (suc fuel) n acc) ≡ digits n acc
unfolding print
digits-print zero n acc h =
    let q : (n / 10 == 0) ≡ true = ground arith in
    let e : 10 * 0 + n % 10 ≡ n = omega arith in
    rw q (digits-digit 0 (n % 10) acc (omega arith) ∙ ap (λ k. digits k acc) e)
digits-print (suc fuel) n acc h = elim (Bool-cases (n / 10 == 0)) [
  | inl q ↦
      let e : 10 * 0 + n % 10 ≡ n = ground arith in
      rw q (digits-digit 0 (n % 10) acc (omega arith) ∙ ap (λ k. digits k acc) e)
  | inr q ↦
      let e : 10 * (n / 10) + n % 10 ≡ n = omega arith in
      let l : n / 10 < 10 ^ suc fuel = omega (arith, pow-suc 10 (suc fuel)) in
      rw q (
        digits-print fuel (n / 10) ((b'0' + n % 10) ∷ acc) l
        ∙ digits-digit (n / 10) (n % 10) acc (omega arith)
        ∙ ap (λ k. digits k acc) e)
]
