-- ===== src/Draw/Input/Rest.antt =====
-- What `scanf` leaves of the input.
use csf.Base.{
  ℕ, zero, suc, ◌+◌, ◌*◌, ◌≤◌, Bool, true, false, ◌&&◌, ◌||◌, arith, [], ◌∷◌, ltb, ◌==◌, if_lem,
  length,
}
use csf.Base.Int.{ℤ}
use csf.Base.Text.{Text, is_space, is_digit, digit_of, digits}
use csf.Base.Text.Scan.{
  Parsed, in_range, signed, scan_integer, scan_sign, scan_digits, skip_space, length-skip_space,
  length-digits, in_int,
}
use csf.Draw.Input.{
  Effect, changes, refuses, breaks, Step, goes_on, error, undefined, then_read, with_parsed,
  in_unsigned, scan_int, scan_unsigned, hex_digits, hex_number, skip_0x, hex_sign, scan_hex,
  take_upto, with_word, scan_word,
}

-- What is left of the input is no longer than `n`.
abbrev pub Leaves : ℕ → Step → Type 0
Leaves n (goes_on d rest) = length rest ≤ n
Leaves n error = Unit {0}
Leaves n undefined = Unit {0}

abbrev RestAtMost : ℕ → Parsed → Type 0
RestAtMost n (Parsed.parsed v rest) = length rest ≤ n
RestAtMost n Parsed.invalid_argument = Unit {0}
RestAtMost n Parsed.out_of_range = Unit {0}

pub then_read-Leaves :
    (e : Effect) (rest : Text) (n : ℕ) → length rest ≤ n → Leaves n (then_read e rest)
then_read-Leaves (changes d) rest n h = h
then_read-Leaves refuses rest n h = tt
then_read-Leaves breaks rest n h = tt

with_parsed-Leaves :
    (p : Parsed) (n : ℕ) (next : ℤ → Text → Step)
    → RestAtMost n p
    → ((v : ℤ) (rest : Text) → length rest ≤ n → Leaves n (next v rest))
    → Leaves n (with_parsed p next)
with_parsed-Leaves (Parsed.parsed v rest) n next h k = k v rest h
with_parsed-Leaves Parsed.invalid_argument n next h k = tt
with_parsed-Leaves Parsed.out_of_range n next h k = tt

in_range-RestAtMost :
    (in_type : ℤ → Bool) (v : ℤ) (rest : Text) (n : ℕ)
    → length rest ≤ n
    → RestAtMost n (in_range in_type v rest)
in_range-RestAtMost in_type v rest n h =
    if_lem (λ (p : Parsed). RestAtMost n p) (in_type v) (λ _. h) (λ _. tt)

scan_digits-RestAtMost :
    (in_type : ℤ → Bool) (negative : Bool) (s : Text) (n : ℕ)
    → length s ≤ n
    → RestAtMost n (scan_digits in_type negative s)
unfolding scan_digits
scan_digits-RestAtMost in_type negative [] n h = tt
scan_digits-RestAtMost in_type negative (c ∷ s) n h =
    if_lem (λ (p : Parsed). RestAtMost n p) (is_digit c)
      (λ _.
        in_range-RestAtMost in_type (signed negative (digits 0 (c ∷ s)).0) (digits 0 (c ∷ s)).1 n
          (omega (arith, length-digits 0 (c ∷ s))))
      (λ _. tt)

scan_sign-RestAtMost :
    (in_type : ℤ → Bool) (s : Text) (n : ℕ) → length s ≤ n → RestAtMost n (scan_sign in_type s)
unfolding scan_sign
scan_sign-RestAtMost in_type [] n h = tt
scan_sign-RestAtMost in_type (c ∷ s) n h =
    if_lem (λ (p : Parsed). RestAtMost n p) (c == b'-')
      (λ _. scan_digits-RestAtMost in_type true s n (omega arith))
      (λ _.
        if_lem (λ (p : Parsed). RestAtMost n p) (c == b'+')
          (λ _. scan_digits-RestAtMost in_type false s n (omega arith))
          (λ _. scan_digits-RestAtMost in_type false (c ∷ s) n h))

scan_integer-RestAtMost :
    (in_type : ℤ → Bool) (s : Text) (n : ℕ) → length s ≤ n → RestAtMost n (scan_integer in_type s)
scan_integer-RestAtMost in_type s n h =
    scan_sign-RestAtMost in_type (skip_space s) n (omega (arith, length-skip_space s))

length-hex_digits : (n : ℕ) (s : Text) → length (hex_digits n s).1 ≤ length s
unfolding hex_digits
length-hex_digits n [] = omega arith
length-hex_digits n (c ∷ s) =
    if_lem (λ (r : ℕ × Text). length r.1 ≤ suc (length s)) (ltb (digit_of c) 16)
      (λ _. omega (arith, length-hex_digits (16 * n + digit_of c) s)) (λ _. omega arith)

hex_number-RestAtMost :
    (negative : Bool) (s : Text) (n : ℕ) → length s ≤ n → RestAtMost n (hex_number negative s)
unfolding hex_number
hex_number-RestAtMost negative [] n h = tt
hex_number-RestAtMost negative (c ∷ s) n h =
    if_lem (λ (p : Parsed). RestAtMost n p) (ltb (digit_of c) 16)
      (λ _.
        in_range-RestAtMost in_unsigned (signed negative (hex_digits 0 (c ∷ s)).0)
          (hex_digits 0 (c ∷ s)).1 n (omega (arith, length-hex_digits 0 (c ∷ s))))
      (λ _. tt)

length-skip_0x : (s : Text) → length (skip_0x s) ≤ length s
unfolding skip_0x
length-skip_0x [] = omega arith
length-skip_0x (c ∷ []) = omega arith
length-skip_0x (c ∷ d ∷ s) =
    if_lem (λ (r : Text). length r ≤ suc (suc (length s))) (c == b'0' && (d == b'x' || d == b'X'))
      (λ _. omega arith) (λ _. omega arith)

hex_sign-RestAtMost : (s : Text) (n : ℕ) → length s ≤ n → RestAtMost n (hex_sign s)
unfolding hex_sign
hex_sign-RestAtMost [] n h = tt
hex_sign-RestAtMost (c ∷ s) n h =
    if_lem (λ (p : Parsed). RestAtMost n p) (c == b'-')
      (λ _. hex_number-RestAtMost true (skip_0x s) n (omega (arith, length-skip_0x s)))
      (λ _.
        if_lem (λ (p : Parsed). RestAtMost n p) (c == b'+')
          (λ _. hex_number-RestAtMost false (skip_0x s) n (omega (arith, length-skip_0x s)))
          (λ _.
            hex_number-RestAtMost false (skip_0x (c ∷ s)) n
              (omega (arith, length-skip_0x (c ∷ s)))))

length-take_upto : (n : ℕ) (s : Text) → length (take_upto n s).1 ≤ length s
unfolding take_upto
length-take_upto zero s = omega arith
length-take_upto (suc n) [] = omega arith
length-take_upto (suc n) (c ∷ s) =
    if_lem (λ (r : Text × Text). length r.1 ≤ suc (length s)) (is_space c) (λ _. omega arith)
      (λ _. omega (arith, length-take_upto n s))

with_word-Leaves :
    (word rest : Text) (n : ℕ) (next : Text → Text → Step)
    → length rest ≤ n
    → ((w r : Text) → length r ≤ n → Leaves n (next w r))
    → Leaves n (with_word (word, rest) next)
with_word-Leaves [] rest n next h k = tt
with_word-Leaves (c ∷ word) rest n next h k = k (c ∷ word) rest h

module _ (text : Text) (n : ℕ) (h : length text ≤ n) where
  pub scan_int-Leaves :
      (next : ℤ → Text → Step)
      → ((v : ℤ) (rest : Text) → length rest ≤ n → Leaves n (next v rest))
      → Leaves n (scan_int text next)
  unfolding scan_int
  scan_int-Leaves next k =
      with_parsed-Leaves (scan_integer in_int text) n next (scan_integer-RestAtMost in_int text n h)
        k

  pub scan_unsigned-Leaves :
      (next : ℕ → Text → Step)
      → ((v : ℕ) (rest : Text) → length rest ≤ n → Leaves n (next v rest))
      → Leaves n (scan_unsigned text next)
  unfolding scan_unsigned
  scan_unsigned-Leaves next k =
      with_parsed-Leaves (scan_integer in_unsigned text) n _
        (scan_integer-RestAtMost in_unsigned text n h) (λ v rest l. k _ rest l)

  pub scan_hex-Leaves :
      (next : ℕ → Text → Step)
      → ((v : ℕ) (rest : Text) → length rest ≤ n → Leaves n (next v rest))
      → Leaves n (scan_hex text next)
  unfolding scan_hex
  scan_hex-Leaves next k =
      with_parsed-Leaves (hex_sign (skip_space text)) n _
        (hex_sign-RestAtMost (skip_space text) n (omega (arith, h, length-skip_space text)))
        (λ v rest l. k _ rest l)

  pub scan_word-Leaves :
      (next : Text → Text → Step)
      → ((w rest : Text) → length rest ≤ n → Leaves n (next w rest))
      → Leaves n (scan_word text next)
  unfolding scan_word
  scan_word-Leaves next k =
      with_word-Leaves (take_upto 255 (skip_space text)).0 (take_upto 255 (skip_space text)).1 n
        next (omega (arith, h, length-skip_space text, length-take_upto 255 (skip_space text))) k
