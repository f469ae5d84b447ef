-- ===== src/BigInt/Print/Dec.antt =====
-- What `to_dec` prints, read back.
use native.Mathlib.Nat.{pow-suc}
use mathlib.Core.List.{reverse, reverse-append}
use csf.Base.{
  ℕ, zero, suc, ◌+◌, ◌*◌, ◌/◌, ◌%◌, ◌^◌, ◌<◌, ◌≡◌, refl, sym, ap, ◌∙◌, Bool, true, false, arith, [],
  ◌∷◌, ◌++◌, append_assoc, append-nil, Option, none, some, length, ◌==◌, if◌then◌else◌, inl, inr,
  Bool-cases,
}
use csf.Base.Int.{ℤ}
use csf.Base.Text.{Text, codes, digits, print, digits-digit}
use csf.BigInt.{BigInt, is_zero}
use csf.BigInt.Value.{value, IsWords, signed, to_ℤ, all_zero-value}
use csf.BigInt.Quotient.{unsigned}
use csf.BigInt.Quotient.Step.{IsNat}
use csf.BigInt.Quotient.Rounded.{value-lt-pow}
use csf.BigInt.Print.{with_minus, to_string_u64, dec_digits, dec_rounds, finish_dec, to_dec}
use csf.BigInt.Print.Remainder.{tenth, last_digit, last_digit_lem, the_zero}

-- What the loop writes, for a number below `2 ^ n`.
record Written (n : ℕ) (num : BigInt) (v : ℕ) (out : Text) : Type 0 where
  more : Text
  ends : dec_digits (suc n) num out ≡ some (out ++ more)
  reads : (acc : Text) → digits 0 (reverse more ++ acc) ≡ digits v acc

one_digit : (d : ℕ) → d < 10 → to_string_u64 d ≡ (b'0' + d) ∷ []
unfolding print
one_digit d h =
    let e : (d / 10 == 0) ≡ true = ground arith in rw e (ap (λ k. (b'0' + k) ∷ []) (omega arith))

half_pow : (n v : ℕ) → v < 2 ^ suc n → v / 10 < 2 ^ n
half_pow n v h = omega (arith, pow-suc 2 n)

round_reads :
    (v d : ℕ) (written more acc : Text)
    → d ≡ v % 10
    → written ≡ to_string_u64 d
    → ((acc' : Text) → digits 0 (reverse more ++ acc') ≡ digits (v / 10) acc')
    → digits 0 (reverse (written ++ more) ++ acc) ≡ digits v acc
round_reads v d written more acc e f ih =
    let one : written ≡ (b'0' + v % 10) ∷ [] =
      f ∙ ap to_string_u64 e ∙ one_digit (v % 10) (omega arith) in
    ap (λ s. digits 0 (reverse (s ++ more) ++ acc)) one
    ∙ ap (λ s. digits 0 (s ++ acc)) (reverse-append ((b'0' + v % 10) ∷ []) more)
    ∙ ap (digits 0) (append_assoc (reverse more) ((b'0' + v % 10) ∷ []) acc)
    ∙ ih ((b'0' + v % 10) ∷ acc)
    ∙ digits-digit (v / 10) (v % 10) acc (omega arith)
    ∙ ap (λ k. digits k acc) (omega arith)

stopped :
    (n : ℕ) (num : BigInt) (v : ℕ) (out : Text) → is_zero num ≡ true → v ≡ 0 → Written n num v out
unfolding dec_digits
stopped n num v out z e = record {
  more = [];
  ends = rw z (ap some (sym (append-nil out)));
  reads = λ acc. ap (λ k. digits k acc) (sym e);
}

is_zero_lem : (num : BigInt) (v : ℕ) → IsNat num v → is_zero num ≡ (v == 0)
unfolding is_zero
is_zero_lem num v p = all_zero-value num.magnitude ∙ ap (λ k. k == 0) p.amount

loop-Written :
    (n : ℕ) (num : BigInt) (v : ℕ) (out : Text) → IsNat num v → v < 2 ^ n → Written n num v out
unfolding dec_digits
loop-Written zero num v out p h =
    stopped 0 num v out (is_zero_lem num v p ∙ ground arith) (omega arith)
loop-Written (suc n) num v out p h = elim (Bool-cases (v == 0)) [
  | inl z ↦ stopped (suc n) num v out (is_zero_lem num v p ∙ z) (ground arith)
  | inr z ↦
      let t = tenth num v p in
      let d = last_digit num t.ans in
      let ih = loop-Written n t.ans (v / 10) (out ++ to_string_u64 d) t.is_tenth (half_pow n v h) in
      let some_v : 0 < v = ground arith in
      record {
        more = to_string_u64 d ++ ih.more;
        ends =
            rw (is_zero_lem num v p ∙ z, t.returns)
              (ih.ends ∙ ap some (append_assoc out (to_string_u64 d) ih.more));
        reads = λ acc.
            round_reads v d (to_string_u64 d) ih.more acc
              (last_digit_lem num t.ans v p t.is_tenth some_v) refl ih.reads;
      }
]

-- The number of a text of decimal digits.
abbrev pub whole : ℕ × Text → Option ℕ
whole (n, []) = some n
whole (n, c ∷ s) = none

abbrev pub signed_number : Bool → Option ℕ → Option ℤ
signed_number sign none = none
signed_number sign (some n) = some (signed sign n)

-- The integer of a text with an optional minus.
abbrev pub of_dec : Text → Option ℤ
of_dec [] = none
of_dec (c ∷ s) =
    if c == b'-'
    then signed_number true (whole (digits 0 s))
    else signed_number false (whole (digits 0 (c ∷ s)))

-- A text that is read as a positive number has a first digit.
signed_dec :
    (sign : Bool) (s : Text) (v : ℕ)
    → digits 0 s ≡ (v, [])
    → 0 < v
    → of_dec (with_minus sign s) ≡ some (signed sign v)
unfolding digits
signed_dec true s v e h = ap (λ r. signed_number true (whole r)) e
signed_dec false [] v e h = let z : 0 ≡ v = ap (λ r. r.0) e in absurd (omega arith)
signed_dec false (c ∷ s) v e h = elim (Bool-cases (c == b'-')) [
  | inr q ↦ rw q (ap (λ r. signed_number false (whole r)) e)
  | inl q ↦
      let is_minus : b'-' ≡ c = ground arith in
      let z : 0 ≡ v = ap (λ k. (digits 0 (k ∷ s)).0) is_minus ∙ ap (λ r. r.0) e in
      absurd (omega arith)
]

unsigned-IsNat : (x : BigInt) → IsWords x.magnitude → IsNat (unsigned x) (value x.magnitude)
unsigned-IsNat x h = record { amount = refl; words = h; positive = refl }

all_rounds :
    (x : BigInt)
    → IsWords x.magnitude
    → Written (64 * length x.magnitude) (unsigned x) (value x.magnitude) []
all_rounds x h =
    loop-Written (64 * length x.magnitude) (unsigned x) (value x.magnitude) [] (unsigned-IsNat x h)
      (value-lt-pow x.magnitude h)

printed :
    (x : BigInt) (h : IsWords x.magnitude)
    → is_zero x ≡ false
    → to_dec x ≡ some (with_minus x.sign (reverse (all_rounds x h).more))
unfolding to_dec dec_rounds
printed x h z = rw z (ap (finish_dec x.sign) (all_rounds x h).ends)

nothing_left : (n : ℕ) → digits n [] ≡ (n, [])
unfolding digits
nothing_left n = refl

zero_dec : (sign : Bool) (n : ℕ) → n ≡ 0 → of_dec (codes "0") ≡ some (signed sign n)
unfolding digits
zero_dec true n e = rw e refl
zero_dec false n e = rw e refl

-- `to_dec` ends within its rounds, for every vector of 64-bit words, and the text that it returns is
-- the integer in decimal, with a minus where it is negative.
pub to_dec_lem :
    (x : BigInt)
    → IsWords x.magnitude
    → (s : Text) × (to_dec x ≡ some s) × (of_dec s ≡ some (to_ℤ x))
unfolding to_dec is_zero
to_dec_lem x h = elim (Bool-cases (is_zero x)) [
  | inl z ↦ (codes "0", rw z refl, zero_dec x.sign (value x.magnitude) (the_zero x.magnitude z))
  | inr z ↦
      let w = all_rounds x h in
      (
        with_minus x.sign (reverse w.more),
        printed x h z,
        signed_dec x.sign (reverse w.more) (value x.magnitude)
            (ap (digits 0) (sym (append-nil (reverse w.more)))
              ∙ w.reads []
              ∙ nothing_left (value x.magnitude))
            (ground (arith, all_zero-value x.magnitude)),
      )
]
