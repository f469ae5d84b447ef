-- ===== src/Base/Text/Printed.antt =====
-- A printed number starts with a digit, and is what `strtoul` reads.
use csf.Base.Tests.{◌==◌, if_lem}
use Prim.Native.Nat.{ℕ, zero, suc, ◌+◌, ◌/◌, ◌%◌, ◌^◌, ◌≤◌, ◌<◌}
use mathlib.Core.Path.{◌≡◌, refl, ◌∙◌}
use mathlib.Core.Bool.{false}
use mathlib.Core.List.{[], ◌∷◌}
use native.Mathlib.Omega.{arith}
use csf.Base.Text.{
  Text, digits, print, digits-print, strtoul, strtoul_sign, strtoul_digits, strtoul_from, unsigned,
}

unfoldable pub FrontIsDigit : Text → Type 0
FrontIsDigit [] = ⊥
FrontIsDigit (c ∷ s) = (b'0' ≤ c) × (c ≤ b'9')

print-FrontIsDigit_kept :
    (fuel n : ℕ) (acc : Text) → FrontIsDigit acc → FrontIsDigit (print fuel n acc)
unfolding print FrontIsDigit
print-FrontIsDigit_kept zero n acc h = h
print-FrontIsDigit_kept (suc fuel) n acc h =
    let here : FrontIsDigit ((b'0' + n % 10) ∷ acc) = (omega arith, omega arith) in
    if_lem (λ (s : Text). FrontIsDigit s) (n / 10 == 0) (λ q. here)
      (λ q. print-FrontIsDigit_kept fuel (n / 10) ((b'0' + n % 10) ∷ acc) here)

pub print-FrontIsDigit : (fuel n : ℕ) (acc : Text) → FrontIsDigit (print (suc fuel) n acc)
unfolding print FrontIsDigit
print-FrontIsDigit fuel n acc =
    let here : FrontIsDigit ((b'0' + n % 10) ∷ acc) = (omega arith, omega arith) in
    if_lem (λ (s : Text). FrontIsDigit s) (n / 10 == 0) (λ q. here)
      (λ q. print-FrontIsDigit_kept fuel (n / 10) ((b'0' + n % 10) ∷ acc) here)

strtoul-FrontIsDigit :
    (s : Text) → FrontIsDigit s → strtoul s ≡ (unsigned false (digits 0 s).0, (digits 0 s).1)
unfolding strtoul strtoul_from strtoul_sign strtoul_digits FrontIsDigit
strtoul-FrontIsDigit [] h = elim h [ ]
strtoul-FrontIsDigit (c ∷ s) h = ground arith

-- In front of a text that has no digit there.
pub strtoul-print :
    (n : ℕ) (acc : Text)
    → n < 2 ^ 64
    → digits n acc ≡ (n, acc)
    → strtoul (print 20 n acc) ≡ (n, acc)
strtoul-print n acc h e =
    let u : unsigned false n ≡ n = ground arith in
    strtoul-FrontIsDigit (print 20 n acc) (print-FrontIsDigit 19 n acc)
    ∙ rw (digits-print 19 n acc (omega arith), e, u) refl
