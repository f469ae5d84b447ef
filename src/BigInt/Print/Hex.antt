-- ===== src/BigInt/Print/Hex.antt =====
-- What `to_hex` prints, read back.
use native.Mathlib.Nat.{pow-suc, add-mul, mul_assoc, div-div-eq-div-mul, div-add-mod'}
use csf.Base.{
  ℕ, zero, suc, ◌+◌, ◌-◌, ◌*◌, ◌/◌, ◌%◌, ◌^◌, ◌<◌, ◌≡◌, refl, sym, ap, ◌∙◌, Bool, true, false, not,
  ◌&&◌, arith, List, [], ◌∷◌, ◌++◌, Option, none, some, length, get_or, leb, ◌==◌, if◌then◌else◌,
  bit_and, ◌>>>◌, inl, inr, Bool-cases,
}
use csf.Base.Bits.{bit_and-eq-mod, pow-add}
use csf.Base.Int.{ℤ}
use csf.Base.Text.{Text, codes}
use csf.BigInt.{BigInt, is_zero}
use csf.BigInt.Value.{value, IsWords, signed, to_ℤ, all_zero-value}
use csf.BigInt.Print.{hexcodes, word_hex, words_hex, skip_zeros, with_minus, to_hex}

abbrev pub hex_digit : ℕ → Option ℕ
hex_digit c =
    if leb b'0' c && leb c b'9'
    then some (c - b'0')
    else if leb b'a' c && leb c b'f'
    then some (c - b'a' + 10)
    else none

abbrev pub and_then : Option ℕ → (ℕ → Option ℕ) → Option ℕ
and_then none f = none
and_then (some d) f = f d

-- The number of a text of hexadecimal digits, after `n`; `none` on any other character.
abbrev pub hex_value : ℕ → Text → Option ℕ
hex_value n [] = some n
hex_value n (c ∷ s) = and_then (hex_digit c) (λ d. hex_value (16 * n + d) s)

abbrev pub map_signed : Bool → Option ℕ → Option ℤ
map_signed sign none = none
map_signed sign (some n) = some (signed sign n)

-- The integer of a text with an optional minus.
abbrev pub of_hex : Text → Option ℤ
of_hex [] = none
of_hex (c ∷ s) =
    if c == b'-' then map_signed true (hex_value 0 s) else map_signed false (hex_value 0 (c ∷ s))

hex_digit-hexcodes : (d : ℕ) → d < 16 → hex_digit (get_or hexcodes d 0) ≡ some d
hex_digit-hexcodes zero h = refl
hex_digit-hexcodes (suc zero) h = refl
hex_digit-hexcodes (suc (suc zero)) h = refl
hex_digit-hexcodes (suc (suc (suc zero))) h = refl
hex_digit-hexcodes (suc (suc (suc (suc zero)))) h = refl
hex_digit-hexcodes (suc (suc (suc (suc (suc zero))))) h = refl
hex_digit-hexcodes (suc (suc (suc (suc (suc (suc zero)))))) h = refl
hex_digit-hexcodes (suc (suc (suc (suc (suc (suc (suc zero))))))) h = refl
hex_digit-hexcodes (suc (suc (suc (suc (suc (suc (suc (suc zero)))))))) h = refl
hex_digit-hexcodes (suc (suc (suc (suc (suc (suc (suc (suc (suc zero))))))))) h = refl
hex_digit-hexcodes (suc (suc (suc (suc (suc (suc (suc (suc (suc (suc zero)))))))))) h = refl
hex_digit-hexcodes (suc (suc (suc (suc (suc (suc (suc (suc (suc (suc (suc zero))))))))))) h = refl
hex_digit-hexcodes (suc (suc (suc (suc (suc (suc (suc (suc (suc (suc (suc (suc zero)))))))))))) h =
    refl
hex_digit-hexcodes
      (suc (suc (suc (suc (suc (suc (suc (suc (suc (suc (suc (suc (suc zero))))))))))))) h =
    refl
hex_digit-hexcodes
      (suc (suc (suc (suc (suc (suc (suc (suc (suc (suc (suc (suc (suc (suc zero)))))))))))))) h =
    refl
hex_digit-hexcodes
      (suc (suc (suc (suc (suc (suc (suc (suc (suc (suc (suc (suc (suc (suc (suc zero)))))))))))))))
      h =
    refl
hex_digit-hexcodes
      (suc
        (suc (suc (suc (suc (suc (suc (suc (suc (suc (suc (suc (suc (suc (suc (suc d))))))))))))))))
      h =
    absurd (omega arith)

hex_value-digit :
    (d n : ℕ) (s : Text) → d < 16 → hex_value n (get_or hexcodes d 0 ∷ s) ≡ hex_value (16 * n + d) s
hex_value-digit d n s h =
    ap (λ o. and_then o (λ e. hex_value (16 * n + e) s)) (hex_digit-hexcodes d h)

through :
    (o : Option ℕ) (f g : ℕ → Option ℕ) (m : ℕ) (r : Option ℕ)
    → ((d : ℕ) → f d ≡ some m → g d ≡ r)
    → and_then o f ≡ some m
    → and_then o g ≡ r
through none f g m r h e = absurd (ground arith)
through (some d) f g m r h e = h d e

hex_value-append :
    (s t : Text) (n m : ℕ) → hex_value n s ≡ some m → hex_value n (s ++ t) ≡ hex_value m t
hex_value-append [] t n m h = ap (λ k. hex_value k t) (ground arith)
hex_value-append (c ∷ s) t n m h =
    through (hex_digit c) (λ d. hex_value (16 * n + d) s) (λ d. hex_value (16 * n + d) (s ++ t)) m
      (hex_value m t) (λ d e. hex_value-append s t (16 * n + d) m e) h

pow_16 : (k : ℕ) → 2 ^ (4 * k) ≡ 16 ^ k
pow_16 zero = refl
pow_16 (suc k) =
    ap (λ n. 2 ^ n) (omega arith)
    ∙ pow-add 4 (4 * k)
    ∙ ap (λ n. 16 * n) (pow_16 k)
    ∙ sym (pow-suc 16 k ∙ omega arith)

split : (w p : ℕ) → w % (16 * p) ≡ (w / p % 16) * p + w % p
split w p =
    let q = w / p in
    let parts : q * p ≡ (16 * (q / 16) + q % 16) * p = ap (λ v. v * p) (omega arith) in
    let twice : w / (16 * p) ≡ q / 16 =
      ap (λ v. w / v) (omega arith) ∙ sym (div-div-eq-div-mul w p 16) in
    let whole : w / (16 * p) * (16 * p) ≡ q / 16 * (16 * p) = ap (λ v. v * (16 * p)) twice in
    omega (arith, div-add-mod' w p, div-add-mod' w (16 * p), parts, whole)

-- The first of `k + 1` digits, and the others.
digits_split : (k w : ℕ) → w % 16 ^ suc k ≡ (w / 2 ^ (4 * k) % 16) * 16 ^ k + w % 16 ^ k
digits_split k w =
    ap (λ p. w % p) (pow-suc 16 k ∙ omega arith)
    ∙ split w (16 ^ k)
    ∙ ap (λ p. w / p % 16 * 16 ^ k + w % 16 ^ k) (sym (pow_16 k))

shifted : (n d p p' r r' : ℕ) → p' ≡ p * 16 → r' ≡ d * p + r → (16 * n + d) * p + r ≡ n * p' + r'
shifted n d p p' r r' e f =
    omega (arith, add-mul (16 * n) d p, mul_assoc 16 n p, mul_assoc n p 16, ap (λ v. n * v) e)

hex_value-word_hex : (k w n : ℕ) → hex_value n (word_hex k w) ≡ some (n * 16 ^ k + w % 16 ^ k)
unfolding word_hex
hex_value-word_hex zero w n = ap some (omega arith)
hex_value-word_hex (suc k) w n =
    let e : bit_and (w >>> (4 * k)) 15 ≡ w / 2 ^ (4 * k) % 16 =
      bit_and-eq-mod 4 (w / 2 ^ (4 * k)) 15 refl in
    rw e (
      hex_value-digit (w / 2 ^ (4 * k) % 16) n (word_hex k w) (omega arith)
      ∙ hex_value-word_hex k w (16 * n + w / 2 ^ (4 * k) % 16)
      ∙ ap some (
          shifted n (w / 2 ^ (4 * k) % 16) (16 ^ k) (16 ^ suc k) _ _ (pow-suc 16 k)
            (digits_split k w)))

hex_value-words_hex : (ws : List ℕ) → IsWords ws → hex_value 0 (words_hex ws) ≡ some (value ws)
unfolding words_hex
hex_value-words_hex [] h = refl
hex_value-words_hex (w ∷ ws) h =
    hex_value-append (words_hex ws) (word_hex 16 w) 0 (value ws) (hex_value-words_hex ws h.1)
    ∙ hex_value-word_hex 16 w (value ws)
    ∙ ap some (omega (arith, h.0))

hex_value-skip_zeros : (s : Text) → hex_value 0 (skip_zeros s) ≡ hex_value 0 s
unfolding skip_zeros
hex_value-skip_zeros [] = refl
hex_value-skip_zeros (c ∷ []) = refl
hex_value-skip_zeros (c ∷ d ∷ s) = elim (Bool-cases (c == b'0')) [
  | inl e ↦ let f : c ≡ b'0' = ground arith in rw (e, f) (hex_value-skip_zeros (d ∷ s))
  | inr e ↦ rw e refl
]

-- Only a text of one character starts with a zero.
abbrev pub is_shortest : Text → Bool
is_shortest [] = false
is_shortest (c ∷ []) = true
is_shortest (c ∷ d ∷ s) = not (c == b'0')

is_shortest-skip_zeros : (c : ℕ) (s : Text) → is_shortest (skip_zeros (c ∷ s)) ≡ true
unfolding skip_zeros
is_shortest-skip_zeros c [] = refl
is_shortest-skip_zeros c (d ∷ s) = elim (Bool-cases (c == b'0')) [
  | inl e ↦ rw e (is_shortest-skip_zeros d s)
  | inr e ↦ rw (e, is_shortest) (ground arith)
]

-- Without the minus.
abbrev pub digits_of : Text → Text
digits_of [] = []
digits_of (c ∷ s) = if c == b'-' then s else c ∷ s

no_minus :
    (c : ℕ) (f : ℕ → Option ℕ) (m : ℕ) → and_then (hex_digit c) f ≡ some m → (c == b'-') ≡ false
no_minus c f m h = elim (Bool-cases (c == b'-')) [
  | inr e ↦ e
  | inl e ↦
      let is_minus : c ≡ b'-' = ground arith in
      let refused : none ≡ some m = ap (λ k. and_then (hex_digit k) f) (sym is_minus) ∙ h in
      absurd (ground arith)
]

signed_lem :
    (sign : Bool) (s : Text) (m : ℕ)
    → hex_value 0 s ≡ some m
    → is_shortest s ≡ true
    → (of_hex (with_minus sign s) ≡ some (signed sign m))
      × (is_shortest (digits_of (with_minus sign s)) ≡ true)
signed_lem sign [] m h k = absurd (ground arith)
signed_lem true (c ∷ s) m h k = (ap (map_signed true) h, k)
signed_lem false (c ∷ s) m h k =
    let e = no_minus c (λ d. hex_value (16 * 0 + d) s) m h in
    (rw e (ap (map_signed false) h), rw (e, is_shortest) k)

skip_zeros-append : (s : Text) (c : ℕ) (t : Text) → is_shortest (skip_zeros (s ++ c ∷ t)) ≡ true
skip_zeros-append [] c t = is_shortest-skip_zeros c t
skip_zeros-append (d ∷ s) c t = is_shortest-skip_zeros d (s ++ c ∷ t)

words_hex-is_shortest :
    (ws : List ℕ) → (length ws == 0) ≡ false → is_shortest (skip_zeros (words_hex ws)) ≡ true
unfolding words_hex word_hex
words_hex-is_shortest [] h = absurd (ground arith)
words_hex-is_shortest (w ∷ ws) h = skip_zeros-append (words_hex ws) _ _

zero_lem :
    (sign : Bool) (n : ℕ)
    → n ≡ 0
    → (of_hex (codes "0") ≡ some (signed sign n)) × (is_shortest (digits_of (codes "0")) ≡ true)
zero_lem sign n e = rw e (sign_of_0 sign, refl)
  where
    sign_of_0 : (b : Bool) → of_hex (codes "0") ≡ some (signed b 0)
    sign_of_0 true = refl
    sign_of_0 false = refl

no_words : (ws : List ℕ) → (length ws == 0) ≡ true → value ws ≡ 0
no_words [] h = refl
no_words (w ∷ ws) h = absurd (ground arith)

-- The text that `to_hex` returns is the integer in hexadecimal, with a minus where it is negative, and
-- has no zero in front but the only digit of 0.
pub to_hex_lem :
    (x : BigInt)
    → IsWords x.magnitude
    → (of_hex (to_hex x) ≡ some (to_ℤ x)) × (is_shortest (digits_of (to_hex x)) ≡ true)
unfolding to_hex is_zero
to_hex_lem x h = elim (Bool-cases (length x.magnitude == 0)) [
  | inl e ↦ rw e (zero_lem x.sign (value x.magnitude) (no_words x.magnitude e))
  | inr e ↦ elim (Bool-cases (is_zero x)) [
    | inl z ↦
        rw (e, z) (zero_lem x.sign (value x.magnitude) (ground (arith, all_zero-value x.magnitude)))
    | inr z ↦
        rw (e, z)
          (signed_lem x.sign (skip_zeros (words_hex x.magnitude)) (value x.magnitude)
            (hex_value-skip_zeros (words_hex x.magnitude) ∙ hex_value-words_hex x.magnitude h)
            (words_hex-is_shortest x.magnitude e))
  ]
]
