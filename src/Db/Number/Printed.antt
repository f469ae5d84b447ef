-- ===== src/Db/Number/Printed.antt =====
-- Reading back a printed integer.
use csf.Base.{ℕ, zero, suc, ◌+◌, ◌/◌, ◌%◌, ◌≡◌, refl, true, false, [], ◌∷◌, arith, ◌==◌, if_lem}
use csf.Base.Int.{ℤ, pos, negsuc}
use csf.Base.Text.{print}
use csf.Base.Text.Printed.{FrontIsDigit, print-FrontIsDigit}
use csf.Base.Text.Scan.{print_integer, scan_integer-print_integer}
use csf.Db.{Text}
use csf.Db.Number.{in_int, stoi, to_string, Parsed, has_dot, is_empty_text}

-- Every `int` is printed as a text that is read back as it, to the end of the text.
pub stoi-to_string : (v : ℤ) → in_int v ≡ true → stoi (to_string v) ≡ Parsed.parsed v []
unfolding to_string stoi print_integer
stoi-to_string (pos n) h = scan_integer-print_integer in_int (pos n) [] h h tt
stoi-to_string (negsuc n) h = scan_integer-print_integer in_int (negsuc n) [] h h tt

print-has_dot : (fuel n : ℕ) (acc : Text) → has_dot acc ≡ false → has_dot (print fuel n acc) ≡ false
unfolding print
print-has_dot zero n acc h = h
print-has_dot (suc fuel) n acc h =
    let here : has_dot ((b'0' + n % 10) ∷ acc) ≡ false = ground (arith, h) in
    if_lem (λ (s : Text). has_dot s ≡ false) (n / 10 == 0) (λ q. here)
      (λ q. print-has_dot fuel (n / 10) ((b'0' + n % 10) ∷ acc) here)

pub to_string-has_dot : (v : ℤ) → has_dot (to_string v) ≡ false
unfolding to_string
to_string-has_dot (pos n) = print-has_dot 10 n [] refl
to_string-has_dot (negsuc n) = print-has_dot 10 (suc n) [] refl

FrontIsDigit-is_empty_text : (s : Text) → FrontIsDigit s → is_empty_text s ≡ false
unfolding FrontIsDigit
FrontIsDigit-is_empty_text [] h = elim h [ ]
FrontIsDigit-is_empty_text (c ∷ s) h = refl

pub to_string-is_empty_text : (v : ℤ) → in_int v ≡ true → is_empty_text (to_string v) ≡ false
unfolding to_string
to_string-is_empty_text (pos n) h =
    FrontIsDigit-is_empty_text (print 10 n []) (print-FrontIsDigit 9 n [])
to_string-is_empty_text (negsuc n) h = refl
